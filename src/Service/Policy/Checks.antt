-- ===== src/Service/Policy/Checks.antt =====
-- The check of the extension in RESPMOD, for a file that is not to be processed.
use icapegclh.Prelude.{ℕ, Bool, true, false, ◌≡◌, refl, ◌∙◌, some, [], length, Bool-cases, inl, inr}
use icapegclh.Prelude.Int.{pos}
use icapegclh.Prelude.Outcome.{Outcome, done}
use icapegclh.Consts.{block_page_path, err_page_reason_file_rejected}
use icapegclh.FormPart.{Bytes}
use icapegclh.Http.{HttpMsg, Message, Request, Response, nil_message, response_message}
use icapegclh.External.{External}
use icapegclh.Settings.{Source}
use icapegclh.Exchange.{M, ◌>>=◌, exchange}
use icapegclh.Exchange.Ensures.{>>=-done}
use icapegclh.GeneralFunc.Extensions.{
  Decision, process, reject, bypass, FileCheck, apply_decision, reject_file, bypass_file,
}
use icapegclh.GeneralFunc.Files.{preparing_file_after_scanning}
use icapegclh.GeneralFunc.Messages.{
  with_file_response, if_icap_status_is_204, returning_http_message, set_message_body, pair_of,
}
use icapegclh.GeneralFunc.Pages.{gen_html_page, err_page_resp, http_status_forbidden}
use icapegclh.GeneralFunc.Returning.Pages.{gen_html_page-done}
use icapegclh.GeneralFunc.Headers.{log_header}
use icapegclh.Service.Reply.{Reply, Extracted, reply_with}
use icapegclh.Service.Verdicts.{BodyIs}
use icapegclh.Service.Policy.{Verdict, policy, Implements}

module _ (ext : External) where
  abbrev pub rejected_page : FileCheck → Outcome Bytes
  rejected_page c =
      gen_html_page ext c.block_page_path err_page_reason_file_rejected c.service_name c.identifier
        c.request_uri c.file_size c.x_icap_metadata

  abbrev rejected_response : Bytes → Response
  rejected_response page = record (err_page_resp ext http_status_forbidden (length page)) {
    body = page;
  }

  rejected_response-code : (page : Bytes) → (rejected_response page).status_code ≡ pos 403
  unfolding err_page_resp
  rejected_response-code page = refl

module _ (ext : External) (src : Source) (c : FileCheck) (r : Request) (resp : Response)
    (m : c.method_name ≡ "RESPMOD") where
  apply-refused :
      c.return_400_if_file_ext_rejected ≡ true
      → (s : HttpMsg) → apply_decision ext src reject c s ≡ done ((false, 400, nil_message), s)
  unfolding apply_decision reject_file exchange
  apply-refused e s = rw e refl

  apply-rejected :
      c.return_400_if_file_ext_rejected ≡ false
      → (page : Bytes) → rejected_page ext c ≡ done page
      → apply_decision ext src reject c (record { request = some r; response = some resp })
        ≡ done (
          (false, 200, response_message (rejected_response ext page)),
          record { request = some r; response = some (rejected_response ext page) },
        )
  unfolding apply_decision reject_file exchange
  apply-rejected e page made = rw (e, m, made) refl

  apply-bypass :
      c.is_gzip ≡ false
      → apply_decision ext src bypass c (record { request = some r; response = some resp })
        ≡ done (
          (false, 204, response_message (with_file_response ext c.file resp)),
          record { request = some r; response = some (with_file_response ext c.file resp) },
        )
  unfolding apply_decision bypass_file if_icap_status_is_204 preparing_file_after_scanning
      returning_http_message set_message_body pair_of exchange
  apply-bypass g = rw (m, g) refl

-- A service's reply by the decision, where its `after` gives the reply of a file that is processed.
module _ (ext : External) (src : Source) (c : FileCheck) (r : Request) (resp : Response)
    (m : c.method_name ≡ "RESPMOD") (template : ext.template_parses block_page_path ≡ true)
    (plain : c.is_gzip ≡ false) (same_file : c.file ≡ resp.body) (x : Extracted)
    (after : Bool × ℕ × Message → M Reply) where
  abbrev with_response : Response → HttpMsg
  with_response q = record { request = some r; response = some q }

  abbrev emptied_response : Response
  emptied_response = record resp { body = [] }

  -- The reply of a file that is not processed.
  abbrev stopped : ℕ → Message → Response → Reply
  stopped status msg q = reply_with x status msg (some x.service_headers) (log_header q.header)

  module _
      (stop : (status : ℕ) (msg : Message) (q : Response)
        → after (false, status, msg) (with_response q)
          ≡ done (stopped status msg q, with_response q))
      (return_orig : Bool) (over_size : Bool) (too_large : Outcome Bytes) (scanned : Verdict) where
    abbrev pub verdict : Decision → Verdict
    verdict d =
        policy d c.return_400_if_file_ext_rejected over_size return_orig (rejected_page ext c)
          too_large scanned

    -- A run that ends with a reply that carries out the verdict.
    abbrev pub Carried : Decision → Outcome (Reply × HttpMsg) → Type 0
    Carried d o =
        (reply : Reply) × (s' : HttpMsg) × (o ≡ done (reply, s'))
        × Implements ext resp (verdict d) reply s'

    refused-Carried :
        c.return_400_if_file_ext_rejected ≡ true
        → Carried reject
            ((apply_decision ext src reject c >>= after) (with_response emptied_response))
    unfolding policy Implements
    refused-Carried e = (
      stopped 400 nil_message emptied_response,
      with_response emptied_response,
      >>=-done (apply_decision ext src reject c) after _ _ _
            (apply-refused ext src c r emptied_response m e _)
          ∙ stop 400 nil_message emptied_response,
      rw e (refl, refl),
    )

    rejected-Carried :
        c.return_400_if_file_ext_rejected ≡ false
        → Carried reject
            ((apply_decision ext src reject c >>= after) (with_response emptied_response))
    unfolding policy Implements BodyIs
    rejected-Carried e =
        let (page, made) =
          gen_html_page-done ext c.block_page_path err_page_reason_file_rejected c.service_name
            c.identifier c.request_uri c.file_size c.x_icap_metadata template in
        let q = rejected_response ext page in
        (
          stopped 200 (response_message q) q,
          with_response q,
          >>=-done (apply_decision ext src reject c) after _ _ _
                (apply-rejected ext src c r emptied_response m e page made)
              ∙ stop 200 (response_message q) q,
          rw e (record {
            response = q;
            status = refl;
            message = refl;
            kept = refl;
            code = rejected_response-code ext page;
            body = made;
          }),
        )

    bypass-Carried :
        Carried bypass
          ((apply_decision ext src bypass c >>= after) (with_response emptied_response))
    unfolding policy Implements
    bypass-Carried =
        let q = with_file_response ext c.file emptied_response in
        (
          stopped 204 (response_message q) q,
          with_response q,
          >>=-done (apply_decision ext src bypass c) after _ _ _
                (apply-bypass ext src c r emptied_response m plain)
              ∙ stop 204 (response_message q) q,
          rw same_file (refl, refl, refl),
        )

    pub decision-Carried :
        Carried process (after (true, 0, nil_message) (with_response emptied_response))
        → (d : Decision)
        → Carried d ((apply_decision ext src d c >>= after) (with_response emptied_response))
    decision-Carried processed process = unfold apply_decision in unfold exchange in processed
    decision-Carried processed reject = elim (Bool-cases c.return_400_if_file_ext_rejected) [
      | inl e ↦ refused-Carried e
      | inr e ↦ rejected-Carried e
    ]
    decision-Carried processed bypass = bypass-Carried
