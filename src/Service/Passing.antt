-- ===== src/Service/Passing.antt =====
-- service/services/echo: a response that no rule concerns.
use icapegclh.Prelude.{true, false, ◌≡◌, refl, ◌∙◌, ◌==◌, [], ◌∷◌, none, some}
use icapegclh.Prelude.Outcome.{done}
use icapegclh.FormPart.{Bytes}
use icapegclh.Header.{Header}
use icapegclh.Http.{nil_message, HttpMsg, Request, Response, response_message}
use icapegclh.External.{External}
use icapegclh.Settings.{Source}
use icapegclh.Exchange.{exchange}
use icapegclh.Exchange.Ensures.{>>=-done}
use icapegclh.GeneralFunc.Extensions.{process, decide, check_the_extension, apply_decision}
use icapegclh.GeneralFunc.Files.{
  get_mime_extension, get_file_name, copying_file_to_the_buffer, preparing_file_after_scanning,
}
use icapegclh.GeneralFunc.Headers.{log_header, log_http_msg_headers}
use icapegclh.GeneralFunc.Messages.{with_file_response, returning_http_message_with_file}
use icapegclh.Service.Reply.{Reply, Extracted, reply_with, first_content_type}
use icapegclh.Service.Echo
use icapegclh.Service.Echo.Config.{Echo}

module _ (ext : External) (src : Source) (e : Echo) where
  -- The messages after the file has been extracted.
  abbrev pub emptied : Request → Response → HttpMsg
  emptied r resp = record { request = some r; response = some (record resp { body = [] }) }

  -- What is known once the file has been extracted.
  abbrev extracted : Header → Response → Extracted
  extracted icap_header resp = record {
    service_headers = ("X-ICAP-Metadata", e.x_icap_metadata) ∷ [];
    headers_before = log_header resp.header;
    icap_header = icap_header;
    file = resp.body;
    req_content_type = none;
  }

  module _ (icap_header : Header) (r : Request) (resp : Response)
      (m : e.method_name ≡ "RESPMOD") where
    processing-process_file :
        Echo.processing ext src e false icap_header
          (record { request = some r; response = some resp })
        ≡ Echo.process_file ext src e (extracted icap_header resp) (emptied r resp)
    unfolding Echo.processing Echo.extract_file copying_file_to_the_buffer log_http_msg_headers
        exchange
    processing-process_file = rw m refl

    process_file-checked :
        (x : Extracted)
        → r.method == "CONNECT" ≡ false
        → Echo.process_file ext src e x (emptied r resp) ≡ Echo.checked ext src e x (emptied r resp)
    unfolding Echo.process_file exchange
    process_file-checked x c = rw c refl

    extension_of-file :
        (file : Bytes)
        → Echo.extension_of ext src e file (emptied r resp)
          ≡ done (
            get_mime_extension ext file
                (first_content_type resp.header)
                (get_file_name (emptied r resp)),
            emptied r resp,
          )
    unfolding Echo.extension_of exchange
    extension_of-file file = rw m refl

    module _ (x : Extracted)
        (d : decide
            (get_mime_extension ext x.file
              (first_content_type resp.header)
              (get_file_name (emptied r resp)))
            e.process_exts
            e.reject_exts
            e.bypass_exts
            e.ext_arrs
          ≡ process) where
      check_file-process :
          Echo.check_file ext src e x (emptied r resp)
          ≡ done ((true, 0, nil_message), emptied r resp)
      unfolding Echo.check_file check_the_extension apply_decision exchange
      check_file-process =
          >>=-done (Echo.extension_of ext src e x.file) _ _ _ _ (extension_of-file x.file)
          ∙ rw d refl

      checked-after_check :
          Echo.checked ext src e x (emptied r resp)
          ≡ Echo.after_check ext src e x (true, 0, nil_message) (emptied r resp)
      unfolding Echo.checked
      checked-after_check = >>=-done (Echo.check_file ext src e x) _ _ _ _ check_file-process

    after_check-deliver :
        (x : Extracted)
        → Echo.is_over_size ext src e x.file ≡ false
        → Echo.after_check ext src e x (true, 0, nil_message) (emptied r resp)
          ≡ Echo.deliver ext src e x (emptied r resp)
    unfolding Echo.after_check
    after_check-deliver x o = rw o refl

    deliver-response :
        (x : Extracted)
        → Echo.deliver ext src e x (emptied r resp)
          ≡ done (
            reply_with x 200
                (response_message (with_file_response ext x.file resp))
                (some x.service_headers)
                (log_header resp.header),
            record { request = some r; response = some (with_file_response ext x.file resp) },
          )
    unfolding Echo.deliver preparing_file_after_scanning returning_http_message_with_file
        log_http_msg_headers exchange
    deliver-response x = rw m refl

    -- In RESPMOD, a response whose file is to be processed and is within the size limit, of a request
    -- other than CONNECT, comes back from the echo service with status 200, and unchanged but for the
    -- header Content-Length, which is set to the length of its body.
    pub processing-response :
        r.method == "CONNECT" ≡ false
        → decide
            (get_mime_extension ext resp.body
              (first_content_type resp.header)
              (get_file_name (emptied r resp)))
            e.process_exts
            e.reject_exts
            e.bypass_exts
            e.ext_arrs
          ≡ process
        → Echo.is_over_size ext src e resp.body ≡ false
        → (reply : Reply) × (s' : HttpMsg) × (Echo.processing ext src e false icap_header
              (record { request = some r; response = some resp })
            ≡ done (reply, s'))
          × (reply.status ≡ 200)
          × (reply.message ≡ response_message (with_file_response ext resp.body resp))
          × (s' ≡ record {
            request = some r;
            response = some (with_file_response ext resp.body resp);
          })
    processing-response c d o =
        let x = extracted icap_header resp in
        (
          _,
          _,
          processing-process_file
              ∙ process_file-checked x c
              ∙ checked-after_check x d
              ∙ after_check-deliver x o
              ∙ deliver-response x,
          refl,
          refl,
          refl,
        )
