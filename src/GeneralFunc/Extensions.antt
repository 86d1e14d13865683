-- ===== src/GeneralFunc/Extensions.antt =====
-- general-functions.go, `CheckTheExtension`: which list a file's extension falls under, and what is
-- done about it.
use icapegclh.Prelude.{
  ℕ, String, Bool, true, false, ◌||◌, Option, some, List, [], ◌∷◌, ◌==◌, length, if◌then◌else◌,
}
use icapegclh.Consts.{
  process_exts, reject_exts, bypass_exts, no_modification_status_code, bad_request_status_code,
  ok_status_code, internal_server_err_status_code, err_page_reason_file_rejected, icap_mode_resp,
}
use icapegclh.FormPart.{Bytes}
use icapegclh.Http.{Message, nil_message, request_message, response_message, whole_message}
use icapegclh.External.{External}
use icapegclh.Settings.{Source}
use icapegclh.ContentTypes.{ContentType, regular}
use icapegclh.Extension.{Extension, is_any}
use icapegclh.Exchange.{M, ◌>>=◌, ◌>>◌, pure, maybe, lift, current, put_response}
use icapegclh.GeneralFunc.Files.{preparing_file_after_scanning}
use icapegclh.GeneralFunc.Messages.{if_icap_status_is_204, set_message_body}
use icapegclh.GeneralFunc.Pages.{
  err_page_resp, gen_html_page, req_mod_err_page, http_status_forbidden,
}

unfoldable pub in_string_slice : String → List String → Bool
in_string_slice s [] = false
in_string_slice s (x ∷ xs) = s == x || in_string_slice s xs

unfoldable pub if_file_ext_is_x : String → List String → Bool
if_file_ext_is_x file_extension arr =
    if is_any arr then true else in_string_slice file_extension arr

-- Where the loop over `extArrs` stops.
pub data Decision : Type 0 where
  process reject bypass : Decision

-- The first slot whose list holds the extension. A slot of no known name is passed over, and the
-- end of the loop is treated as `process`.
unfoldable pub decide : String → List String → List String → List String → List Extension → Decision
unfolding if_file_ext_is_x
decide ext ps rs bs [] = process
decide ext ps rs bs (e ∷ es) =
    let rest = decide ext ps rs bs es in
    if e.name == process_exts
    then if if_file_ext_is_x ext ps then process else rest
    else if e.name == reject_exts
    then if if_file_ext_is_x ext rs then reject else rest
    else if e.name == bypass_exts
    then if if_file_ext_is_x ext bs then bypass else rest
    else rest

-- The arguments of a check that its branches share.
pub record FileCheck : Type 0 where
  pub service_name : String
  pub method_name : String
  pub identifier : String
  pub request_uri : String
  pub return_400_if_file_ext_rejected : Bool
  pub is_gzip : Bool
  pub req_content_type : Option ContentType
  pub file : Bytes
  pub block_page_path : String
  pub file_size : String
  pub x_icap_metadata : String

module _ (ext : External) (src : Source) where
  -- The branch of the list `reject`.
  unfoldable pub reject_file : FileCheck → M (Bool × ℕ × Message)
  reject_file c =
      if c.return_400_if_file_ext_rejected
      then pure (false, bad_request_status_code, nil_message)
      else if c.method_name == icap_mode_resp
      then (do
        page ← lift (
            gen_html_page ext c.block_page_path err_page_reason_file_rejected c.service_name
              c.identifier c.request_uri c.file_size c.x_icap_metadata)
        let resp = record (err_page_resp ext http_status_forbidden (length page)) { body = page }
        put_response resp
        pure (false, ok_status_code, response_message resp))
      else (do
        made ← req_mod_err_page ext src err_page_reason_file_rejected c.service_name "-" c.file_size
        maybe made (pure (false, internal_server_err_status_code, nil_message)) (λ (page, req). do
          body ← lift (
              preparing_file_after_scanning ext page
                (some (regular (record { buf = c.file; encoded = false }))) c.method_name)
          pure (false, ok_status_code, request_message (record req { body = body }))))

  -- The branch of the list `bypass`.
  unfoldable pub bypass_file : FileCheck → M (Bool × ℕ × Message)
  bypass_file c = do
    msg ← current
    prepared ←
        if_icap_status_is_204 ext c.method_name no_modification_status_code c.file c.is_gzip
          c.req_content_type (whole_message msg)
    maybe prepared (pure (false, internal_server_err_status_code, nil_message))
        (λ (file_after_prep, http_msg). do
          m ← set_message_body http_msg file_after_prep
          pure (false, no_modification_status_code, m))

  -- The branches by decision.
  unfoldable pub apply_decision : Decision → FileCheck → M (Bool × ℕ × Message)
  apply_decision process c = pure (true, 0, nil_message)
  apply_decision reject c = reject_file c
  apply_decision bypass c = bypass_file c

  unfoldable pub check_the_extension :
      String
      → List Extension
      → (process_list reject_list bypass_list : List String) → FileCheck
      → M (Bool × ℕ × Message)
  check_the_extension file_extension ext_arrs ps rs bs c =
      apply_decision (decide file_extension ps rs bs ext_arrs) c
