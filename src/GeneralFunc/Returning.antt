-- ===== src/GeneralFunc/Returning.antt =====
-- The shared functions on a message return: they need the default block page, the settings of its web
-- server and, in REQMOD, the content type of the request.
pub mod Pages
use mathlib.Core.Path.{subst}
use icapegclh.Prelude.{
  ℕ, String, Bool, true, false, ◌≡◌, ◌≢◌, refl, ◌∙◌, sym, Option, none, some, List, [], ◌==◌,
  eq_iff, arith, nat_eq, if◌then◌else◌, Bool-cases, inl, inr,
}
use icapegclh.Prelude.Outcome.{Outcome, done, panicked, ◌>>=◌}
use icapegclh.Consts.{icap_mode_req, icap_mode_resp, block_page_path, no_modification_status_code}
use icapegclh.FormPart.{Bytes}
use icapegclh.Http.{Request, Message, request_message, response_message, nil_message, whole_message}
use icapegclh.External.{External, ErrorPage}
use icapegclh.Settings.{Source, read_values_string}
use icapegclh.ContentTypes.{ContentType, regular, body_after_scanning, drained}
use icapegclh.Extension.{Extension}
use icapegclh.Exchange.{M, pure, lift}
use icapegclh.Exchange.Returns.{
  Returns, Anything, Returns-pure, Returns-lift, Returns-if, Returns-bind, Returns-bind_after,
  Returns-then, Returns-either, Returns-the_request, Returns-put_request, Returns-put_response,
  Returns-the_response, Returns-the_request-IsBuilt, Returns-the_built_request, IsBuilt,
  returns_rules,
}
use icapegclh.GeneralFunc.Files.{
  preparing_file_after_scanning, copying_file_to_the_buffer, copying_file_to_the_buffer_req,
  copying_file_to_the_buffer_resp,
}
use icapegclh.GeneralFunc.Headers.{log_http_msg_headers}
use icapegclh.GeneralFunc.Messages.{
  with_file_response, returning_http_message_with_file, returning_http_message,
  if_icap_status_is_204, if_status_is_204_with_file, set_message_body,
}
use icapegclh.GeneralFunc.Pages.{gen_html_page, req_mod_err_page, if_max_file_size_exc}
use icapegclh.GeneralFunc.Extensions.{
  Decision, process, reject, bypass, decide, FileCheck, reject_file, bypass_file, apply_decision,
  check_the_extension,
}

-- In REQMOD the content type is known.
abbrev pub Typed : String → Option ContentType → Type 0
Typed method_name t = method_name == icap_mode_req ≡ true → (c : ContentType) × (t ≡ some c)

abbrev pub CopyTyped : String → Option (Bytes × Option ContentType) → Type 0
CopyTyped method_name none = Unit {0}
CopyTyped method_name (some (file, t)) = Typed method_name t

pub CopyTyped-some :
    (method_name : String) (copied : Option (Bytes × Option ContentType))
    (a : Bytes × Option ContentType)
    → CopyTyped method_name copied
    → copied ≡ some a
    → Typed method_name a.1
CopyTyped-some method_name copied a h e = subst (CopyTyped method_name) e h

is_text : (a b : String) → a == b ≡ true → a ≡ b
is_text a b h = grind (arith, eq_iff a b)

pub not_resp :
    (method_name : String)
    → method_name == icap_mode_req ≡ true
    → method_name == icap_mode_resp ≡ false
not_resp method_name h =
    subst (λ n. n == icap_mode_resp ≡ false) (sym (is_text method_name icap_mode_req h)) refl

drained-IsBuilt :
    (method_name : String) (r : Request) → IsBuilt method_name r → IsBuilt method_name (drained r)
drained-IsBuilt method_name r built = built

abbrev HasType : Bytes × Option ContentType → Type 0
HasType (file, t) = (c : ContentType) × (t ≡ some c)

module _ (ext : External) (src : Source) (method_name : String) where
  pub preparing-done :
      (file : Bytes) (t : Option ContentType)
      → Typed method_name t
      → (b : Bytes) × (preparing_file_after_scanning ext file t method_name ≡ done b)
  unfolding preparing_file_after_scanning
  preparing-done file t typed = elim (Bool-cases (method_name == icap_mode_req)) [
    | inl is_req ↦
        let (c, e) = typed is_req in (body_after_scanning ext c file, rw (is_req, e) refl)
    | inr not_req ↦ (file, rw not_req refl)
  ]

  pub preparing-Returns :
      (file : Bytes) (t : Option ContentType)
      → Typed method_name t
      → Returns method_name Anything (lift (preparing_file_after_scanning ext file t method_name))
  preparing-Returns file t typed =
      let (b, e) = preparing-done file t typed in Returns-lift method_name _ b e tt

  pub log-Returns : Returns method_name Anything (log_http_msg_headers method_name)
  unfolding log_http_msg_headers
  log-Returns =
      Returns-if method_name _ _ _ (λ _. search returns_rules)
        (λ h. let read = Returns-the_response method_name h in search (returns_rules, read))

  pub returning_with_file-Returns :
      (file : Bytes)
      → Returns method_name Anything (returning_http_message_with_file ext method_name file)
  unfolding returning_http_message_with_file
  returning_with_file-Returns file =
      Returns-if method_name _ _ _
        (λ is_req.
          Returns-bind_after method_name _ _
            (Returns-the_built_request method_name (not_resp method_name is_req))
            (λ r built.
              Returns-then method_name _ _ (Returns-put_request method_name _ built)
                (Returns-pure method_name _ tt)))
        (λ h.
          Returns-either method_name _ _ _
            (Returns-bind method_name _ _ (Returns-the_response method_name h) (λ r.
              Returns-then method_name _ _ (Returns-put_response method_name _)
                (Returns-pure method_name (response_message (with_file_response ext file r)) tt)))
            (Returns-pure method_name nil_message tt))

  pub returning-Returns :
      (file : Bytes) → Returns method_name Anything (returning_http_message ext method_name file)
  unfolding returning_http_message
  returning-Returns file =
      Returns-if method_name _ _ _
        (λ is_req.
          Returns-bind_after method_name _ _
            (Returns-the_built_request method_name (not_resp method_name is_req))
            (λ r built.
              Returns-then method_name _ _ (Returns-put_request method_name _ built)
                (Returns-pure method_name _ tt)))
        (λ h.
          Returns-either method_name _ _ _
            (Returns-bind method_name _ _ (Returns-the_response method_name h) (λ r.
              Returns-then method_name _ _ (Returns-put_response method_name _)
                (Returns-pure method_name (response_message (with_file_response ext file r)) tt)))
            (Returns-pure method_name nil_message tt))

  pub set_message_body-Returns :
      (m : Message) (body : Bytes) → Returns method_name Anything (set_message_body m body)
  unfolding set_message_body
  set_message_body-Returns (request_message r) body = search returns_rules
  set_message_body-Returns (response_message r) body = search returns_rules
  set_message_body-Returns nil_message body = search returns_rules
  set_message_body-Returns (whole_message s) body = search returns_rules

  pub if_icap_status_is_204-Returns :
      (status : ℕ) (file : Bytes) (is_gzip : Bool) (t : Option ContentType) (m : Message)
      → Typed method_name t
      → Returns method_name Anything (if_icap_status_is_204 ext method_name status file is_gzip t m)
  unfolding if_icap_status_is_204
  if_icap_status_is_204-Returns status file is_gzip t m typed =
      search (returns_rules, preparing-Returns, returning-Returns, typed) depth 8

  pub if_status_is_204_with_file-Returns :
      (status : ℕ) (file : Bytes) (t : Option ContentType) (m : Message)
      → Returns method_name Anything
          (if_status_is_204_with_file ext method_name status file false t m true)
  unfolding if_status_is_204_with_file
  if_status_is_204_with_file-Returns status file t m =
      let plain : Typed method_name (some (regular (record { buf = file; encoded = false }))) =
        λ _. (_, refl) in
      search (returns_rules, preparing-Returns, returning_with_file-Returns, plain) depth 8

  copying_req-Returns :
      method_name == icap_mode_req ≡ true
      → Returns method_name HasType (copying_file_to_the_buffer_req ext)
  unfolding copying_file_to_the_buffer_req
  copying_req-Returns is_req =
      Returns-bind_after method_name _ _
        (Returns-the_built_request method_name (not_resp method_name is_req))
        (λ r built.
          Returns-then method_name _ _
            (Returns-put_request method_name _ (drained-IsBuilt method_name r built))
            (Returns-pure method_name _ (_, refl)))

  copying_resp-Returns :
      method_name == icap_mode_req ≡ false
      → Returns method_name Anything (copying_file_to_the_buffer_resp ext)
  unfolding copying_file_to_the_buffer_resp
  copying_resp-Returns h = Returns-bind method_name _ _ (Returns-the_response method_name h) (λ r.
      Returns-then method_name _ _ (Returns-put_response method_name _)
        (Returns-pure method_name r.body tt))

  pub copying-Returns :
      Returns method_name (CopyTyped method_name) (copying_file_to_the_buffer ext method_name)
  unfolding copying_file_to_the_buffer
  copying-Returns =
      Returns-if method_name _ _ _
        (λ is_req.
          Returns-bind_after method_name _ _ (copying_req-Returns is_req)
            (λ r h. Returns-pure method_name (some r) (λ _. h)))
        (λ h.
          Returns-either method_name _ _ _
            (Returns-bind method_name _ _ (copying_resp-Returns h)
              (λ file. Returns-pure method_name (some (file, none)) (λ e. absurd (cc (e, h)))))
            (Returns-pure method_name (some ([], none)) (λ e. absurd (cc (e, h)))))
