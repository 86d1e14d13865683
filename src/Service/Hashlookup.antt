-- ===== src/Service/Hashlookup.antt =====
-- service/services/clhashlookup: the service that asks a lookup service for the file's hash.
pub mod Config
use icapegclh.Prelude.{
  ℕ, String, ◌<>◌, Bool, true, false, not, ◌&&◌, Option, none, some, List, [], ◌∷◌, ◌==◌, nat_eq,
  ltb, length, if◌then◌else◌,
}
use icapegclh.Prelude.Int.{ℤ, pos, negsuc, is_zero, lt_length}
use icapegclh.Prelude.Outcome.{Outcome, done, panicked}
use icapegclh.Consts.{
  icap_mode_req, icap_mode_resp, continue_status_code, ok_status_code,
  internal_server_err_status_code, bad_request_status_code, request_time_out_status_code,
  no_modification_status_code, block_page_path, err_page_reason_file_is_not_safe,
}
use icapegclh.Text.{itoa, contains}
use icapegclh.FormPart.{Bytes}
use icapegclh.Header.{Header, add, lookup, remove, insert}
use icapegclh.Http.{
  Message, nil_message, request_message, response_message, whole_message, Response,
}
use icapegclh.External.{External, Answer, bad_url, call_error, answered}
use icapegclh.Settings.{Source}
use icapegclh.Exchange.{
  M, ◌>>=◌, ◌>>◌, pure, maybe, abort, lift, current, the_request, the_response, put_response,
}
use icapegclh.GeneralFunc.Files.{
  copying_file_to_the_buffer, get_file_name, get_mime_extension, preparing_file_after_scanning,
}
use icapegclh.GeneralFunc.Headers.{log_http_msg_headers}
use icapegclh.GeneralFunc.Messages.{
  returning_http_message_with_file, if_status_is_204_with_file, if_icap_status_is_204,
  set_message_body,
}
use icapegclh.GeneralFunc.Pages.{
  if_max_file_size_exc, err_page_resp, gen_html_page, req_mod_err_page,
}
use icapegclh.GeneralFunc.Extensions.{check_the_extension}
use icapegclh.Service.Reply.{
  Reply, Extracted, reply_with, first_content_type, blocked_response, is_partial_content,
}
use Config.{Hashlookup}

-- The bytes of "<nil>", which `fmt.Sprint` prints for nil.
abbrev pub nil_text : Bytes
nil_text = b'<' ∷ b'n' ∷ b'i' ∷ b'l' ∷ b'>' ∷ []

bytes_eq : Bytes → Bytes → Bool
bytes_eq [] [] = true
bytes_eq (a ∷ as_) (b ∷ bs) = nat_eq a b && bytes_eq as_ bs
bytes_eq _ _ = false

-- `len(y) > 0 && y != "<nil>"`
unfoldable pub is_known : Bytes → Bool
unfolding bytes_eq
is_known y = ltb 0 (length y) && not (bytes_eq y nil_text)

module _ (ext : External) (src : Source) (h : Hashlookup) where
  -- The file's extension, from the content type and the name in the message.
  unfoldable pub extension_of : Bytes → M String
  extension_of file =
      if h.method_name == icap_mode_req
      then (do
        r ← the_request
        msg ← current
        pure (get_mime_extension ext file (first_content_type r.header) (get_file_name msg)))
      else (do
        r ← the_response
        msg ← current
        pure (get_mime_extension ext file (first_content_type r.header) (get_file_name msg)))

  abbrev pub file_size_of : Bytes → String
  file_size_of file = itoa (length file)

  -- The configured page, or the default one.
  abbrev pub exception_page_path : String
  exception_page_path = if h.exception_page == "" then block_page_path else h.exception_page

  -- The call of `CheckTheExtension`.
  unfoldable pub check_file : Extracted → M (Bool × ℕ × Message)
  check_file x = do
    file_extension ← extension_of x.file
    r ← the_request
    check_the_extension ext src file_extension h.ext_arrs h.process_exts h.reject_exts h.bypass_exts
        (record {
          service_name = h.service_name;
          method_name = h.method_name;
          identifier = ext.sha256_hex x.file;
          request_uri = r.request_uri;
          return_400_if_file_ext_rejected = h.return_400_if_file_ext_rejected;
          is_gzip = false;
          req_content_type = x.req_content_type;
          file = x.file;
          block_page_path = exception_page_path;
          file_size = file_size_of x.file;
          x_icap_metadata = h.x_icap_metadata;
        })

  -- `e.maxFileSize != 0 && h.maxFileSize < file.Len()`
  unfoldable pub is_over_size : Bytes → Bool
  is_over_size file = not (is_zero h.max_file_size) && lt_length h.max_file_size (length file)

  -- The reply to a file that is larger than the limit.
  unfoldable pub over_size : Extracted → M Reply
  over_size x = do
    (status, page, msg) ←
        if_max_file_size_exc ext src h.x_icap_metadata h.return_orig_if_max_size_exc h.service_name
          h.method_name x.file exception_page_path (file_size_of x.file)
    maybe page (abort) (λ file. do
      prepared ←
          if_status_is_204_with_file ext h.method_name status file false x.req_content_type msg true
      maybe prepared
          (pure
            (reply_with x internal_server_err_status_code nil_message (some x.service_headers) []))
          (λ (file_after_prep, http_msg). do
            m ← set_message_body http_msg file_after_prep
            after ← log_http_msg_headers h.method_name
            pure (reply_with x status m none after)))

  -- `sendFileToScan`: whether the file is malicious, and the error's text. A URL that is refused
  -- leaves a nil request, which is dereferenced.
  unfoldable pub send_file_to_scan : Bytes → Outcome (Bool × Option String)
  unfolding is_known
  send_file_to_scan file = elim (ext.look_up (h.scan_url <> ext.sha256_hex file) h.timeout) [
    | bad_url ↦ panicked
    | call_error err ↦ done (false, some err)
    | answered data_map ↦ done (is_known (ext.sprint (lookup "KnownMalicious" data_map)), none)
  ]

  -- The reply to a file that is not safe.
  unfoldable pub block : Extracted → M Reply
  block x =
      if h.method_name == icap_mode_resp
      then (do
        r ← the_request
        page ← lift (
            gen_html_page ext exception_page_path err_page_reason_file_is_not_safe h.service_name
              (ext.sha256_hex x.file) r.request_uri (file_size_of x.file) h.x_icap_metadata)
        let resp =
            blocked_response h.case_block_http_body page
              (err_page_resp ext h.case_block_http_response_code (length page))
        put_response resp
        after ← log_http_msg_headers h.method_name
        pure (reply_with x ok_status_code (response_message resp) (some x.service_headers) after))
      else (do
        made ←
            req_mod_err_page ext src err_page_reason_file_is_not_safe h.service_name
              (ext.sha256_hex x.file) (file_size_of x.file)
        maybe made (pure (reply_with x internal_server_err_status_code nil_message none []))
            (λ (page, req). do
              after ← log_http_msg_headers h.method_name
              pure (
                  reply_with x ok_status_code (request_message (record req { body = page }))
                    (some x.service_headers) after)))

  -- The reply to an error of the lookup that is not bypassed.
  unfoldable pub scan_failed : Extracted → String → Reply
  scan_failed x err =
      if contains err "context deadline exceeded"
      then reply_with x request_time_out_status_code nil_message none []
      else reply_with x bad_request_status_code nil_message none []

  -- The reply to a file that nothing is known against.
  unfoldable pub deliver : Extracted → M Reply
  deliver x = do
    after ← log_http_msg_headers h.method_name
    scanned_file ← lift (preparing_file_after_scanning ext x.file x.req_content_type h.method_name)
    m ← returning_http_message_with_file ext h.method_name scanned_file
    pure (reply_with x no_modification_status_code m (some x.service_headers) after)

  -- `err != nil && !h.BypassOnApiError`
  unfoldable pub after_scan : Extracted → Bool → Option String → M Reply
  after_scan x is_mal (some err) =
      if h.bypass_on_api_error
      then if is_mal then block x else deliver x
      else pure (scan_failed x err)
  after_scan x is_mal none = if is_mal then block x else deliver x

  unfoldable pub scan : Extracted → M Reply
  scan x = do (is_mal, err) ← lift (send_file_to_scan x.file); after_scan x is_mal err

  -- The test for a CONNECT request, in REQMOD only.
  unfoldable pub is_connect : M Bool
  is_connect =
      if h.method_name == icap_mode_req
      then (do r ← the_request; pure (r.method == "CONNECT"))
      else pure false

  -- What follows the check of the extension.
  unfoldable pub after_check : Extracted → Bool × ℕ × Message → M Reply
  after_check x (true, icap_status, http_msg) = if is_over_size x.file then over_size x else scan x
  after_check x (false, icap_status, http_msg) = do
    after ← log_http_msg_headers h.method_name
    pure (reply_with x icap_status http_msg (some x.service_headers) after)

  unfoldable pub checked : Extracted → M Reply
  checked x = do c ← check_file x; after_check x c

  -- The reply to a CONNECT request.
  unfoldable pub connected : Extracted → M Reply
  connected x = do
    m ← returning_http_message_with_file ext h.method_name x.file
    pure (reply_with x ok_status_code m (some x.service_headers) [])

  -- What follows the extraction of the file.
  unfoldable pub process_file : Extracted → M Reply
  process_file x = do connect ← is_connect; if connect then connected x else checked x

  -- `CopyingFileToTheBuffer`, and what follows it.
  unfoldable pub extract_file : Extracted → M Reply
  extract_file x = do
    copied ← copying_file_to_the_buffer ext h.method_name
    maybe copied
        (pure
          (reply_with x internal_server_err_status_code nil_message (some x.service_headers) []))
        (λ (file, req_content_type).
          process_file (record x { file = file; req_content_type = req_content_type }))

  -- `c.methodName == "RESPMOD"`, and a response that is a byte range.
  unfoldable pub is_byte_range : M Bool
  is_byte_range = do
    msg ← current
    pure (
        h.method_name == icap_mode_resp
        && elim msg.response [ none ↦ false | some r ↦ is_partial_content r.status_code ])

  -- The reply to a byte range: the pair of messages itself.
  unfoldable pub byte_range_reply : Extracted → M Reply
  byte_range_reply x = do
    msg ← current
    pure (reply_with x no_modification_status_code (whole_message msg) (some x.service_headers) [])

  unfoldable pub processing : Bool → Header → M Reply
  processing partial icap_header = do
    before ← log_http_msg_headers h.method_name
    let x : Extracted = record {
      service_headers = ("X-ICAP-Metadata", h.x_icap_metadata) ∷ [];
      headers_before = before;
      icap_header = add ext.canonical "X-ICAP-Metadata" h.x_icap_metadata icap_header;
      file = [];
      req_content_type = none;
    }
    byte_range ← is_byte_range
    if partial
        then pure (reply_with x continue_status_code nil_message none [])
        else if byte_range
        then byte_range_reply x
        else extract_file x
