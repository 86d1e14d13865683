-- ===== src/Service/Policy/Sizes.antt =====
-- What is over the limit, in RESPMOD: the original message, or the block page.
use icapegclh.Prelude.{String, Bool, true, false, ◌≡◌, refl, none, some, [], length, if◌then◌else◌}
use icapegclh.Prelude.Int.{pos}
use icapegclh.Prelude.Outcome.{Outcome, done}
use icapegclh.Consts.{block_page_path, err_page_reason_max_file_exceeded}
use icapegclh.FormPart.{Bytes}
use icapegclh.Http.{HttpMsg, Request, Response, nil_message, response_message}
use icapegclh.External.{External}
use icapegclh.Settings.{Source}
use icapegclh.Exchange.{M, ◌>>=◌, maybe, abort, pure, exchange}
use icapegclh.Exchange.Ensures.{>>=-done}
use icapegclh.GeneralFunc.Files.{preparing_file_after_scanning}
use icapegclh.GeneralFunc.Headers.{log_header, log_http_msg_headers}
use icapegclh.GeneralFunc.Messages.{
  with_file_response, returning_http_message_with_file, if_status_is_204_with_file,
  set_message_body, pair_of,
}
use icapegclh.GeneralFunc.Pages.{gen_html_page, err_page_resp, if_max_file_size_exc}
use icapegclh.GeneralFunc.Returning.Pages.{gen_html_page-done}
use icapegclh.Service.Reply.{Reply, Extracted, reply_with}
use icapegclh.Service.Verdicts.{BodyIs}
use icapegclh.Service.Policy.{kept, blocked, Implements}

err_page_resp-code :
    (ext : External) (page : Bytes)
    → (err_page_resp ext (pos 403) (length page)).status_code ≡ pos 403
unfolding err_page_resp
err_page_resp-code ext page = refl

module _ (ext : External) (src : Source) (r : Request) (resp : Response)
    (metadata service_name : String) (path size : String) where
  abbrev emptied : HttpMsg
  emptied = record { request = some r; response = some (record resp { body = [] }) }

  abbrev pub too_large_page : Outcome Bytes
  too_large_page =
      gen_html_page ext path err_page_reason_max_file_exceeded service_name "-" r.request_uri size
        metadata

  -- The same steps in every service.
  abbrev pub over_size_steps : Bool → Extracted → M Reply
  over_size_steps return_orig x = do
    (status, page, msg) ←
        if_max_file_size_exc ext src metadata return_orig service_name "RESPMOD" resp.body path size
    maybe page abort (λ file. do
      prepared ←
          if_status_is_204_with_file ext "RESPMOD" status file false x.req_content_type msg true
      maybe prepared (pure (reply_with x 500 nil_message (some x.service_headers) []))
          (λ (file_after_prep, http_msg). do
            m ← set_message_body http_msg file_after_prep
            after ← log_http_msg_headers "RESPMOD"
            pure (reply_with x status m none after)))

  max-page :
      (page : Bytes)
      → too_large_page ≡ done page
      → if_max_file_size_exc ext src metadata false service_name "RESPMOD" resp.body path size
          emptied
        ≡ done (
          (200, some page, response_message (err_page_resp ext (pos 403) (length page))),
          record { request = some r; response = some (err_page_resp ext (pos 403) (length page)) },
        )
  unfolding if_max_file_size_exc exchange
  max-page page made = rw made refl

  -- The reply to a file that is too large.
  pub over_size-Implements :
      (x : Extracted) (return_orig : Bool)
      → ext.template_parses block_page_path ≡ true
      → (reply : Reply) × (s' : HttpMsg) × (over_size_steps return_orig x emptied
          ≡ done (reply, s'))
        × Implements ext resp
            (if return_orig then kept 204 else blocked (pos 403) true too_large_page)
            reply
            s'
  unfolding if_max_file_size_exc if_status_is_204_with_file preparing_file_after_scanning
      returning_http_message_with_file set_message_body log_http_msg_headers Implements BodyIs
      pair_of exchange
  over_size-Implements x true template =
      let q = with_file_response ext resp.body resp in
      (
        reply_with x 204 (response_message q) none (log_header q.header),
        record { request = some r; response = some q },
        refl,
        (refl, refl, refl),
      )
  over_size-Implements x false template =
      let (page, made) =
        gen_html_page-done ext path err_page_reason_max_file_exceeded service_name "-" r.request_uri
          size metadata template in
      let q = record (err_page_resp ext (pos 403) (length page)) { body = page } in
      (
        reply_with x 200 (response_message q) none (log_header q.header),
        record { request = some r; response = some q },
        >>=-done
            (if_max_file_size_exc ext src metadata false service_name "RESPMOD" resp.body path size)
            _ emptied _ _ (max-page page made),
        record {
          response = q;
          status = refl;
          message = refl;
          kept = refl;
          code = err_page_resp-code ext page;
          body = made;
        },
      )
