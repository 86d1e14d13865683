-- ===== src/Service/Policy/EchoPolicy.antt =====
-- Echo's `processing` in RESPMOD carries out the table.
use icapegclh.Prelude.{
  ℕ, true, false, ◌≡◌, refl, ◌∙◌, ◌==◌, none, some, [], ◌∷◌, Bool-cases, inl, inr,
}
use icapegclh.Prelude.Outcome.{Outcome, done}
use icapegclh.Consts.{block_page_path}
use icapegclh.FormPart.{Bytes}
use icapegclh.Header.{Header}
use icapegclh.Http.{HttpMsg, Message, Request, Response, nil_message, response_message}
use icapegclh.External.{External}
use icapegclh.Settings.{Source}
use icapegclh.Exchange.{◌>>=◌, exchange}
use icapegclh.GeneralFunc.Extensions.{
  Decision, process, decide, FileCheck, apply_decision, check_the_extension,
}
use icapegclh.GeneralFunc.Files.{
  get_mime_extension, get_file_name, copying_file_to_the_buffer, preparing_file_after_scanning,
}
use icapegclh.GeneralFunc.Headers.{log_header, log_http_msg_headers}
use icapegclh.GeneralFunc.Messages.{with_file_response, returning_http_message_with_file}
use icapegclh.Service.Reply.{Reply, Extracted, reply_with, first_content_type}
use icapegclh.Service.Echo
use icapegclh.Service.Echo.Config.{Echo, echo_identifier}
use icapegclh.Service.Policy.{Verdict, kept, policy, Implements, Carries}
use icapegclh.Service.Policy.Sizes.{too_large_page, over_size_steps, over_size-Implements}
use icapegclh.Service.Policy.Checks.{decision-Carried, rejected_page}

module _ (ext : External) (src : Source) (e : Echo) (r : Request) (resp : Response)
    (m : e.method_name ≡ "RESPMOD") (template : ext.template_parses block_page_path ≡ true) where
  -- The messages when the file has been extracted.
  abbrev emptied : HttpMsg
  emptied = record { request = some r; response = some (record resp { body = [] }) }

  abbrev extracted : Header → Extracted
  extracted icap_header = record {
    service_headers = ("X-ICAP-Metadata", e.x_icap_metadata) ∷ [];
    headers_before = log_header resp.header;
    icap_header = icap_header;
    file = resp.body;
    req_content_type = none;
  }

  -- The page of a file that is too large.
  abbrev too_large : Outcome Bytes
  too_large =
      too_large_page ext src r resp e.x_icap_metadata e.service_name block_page_path
        (Echo.file_size_of ext src e resp.body)

  -- The arguments of the check.
  abbrev file_check : FileCheck
  file_check = record {
    service_name = e.service_name;
    method_name = e.method_name;
    identifier = echo_identifier;
    request_uri = r.request_uri;
    return_400_if_file_ext_rejected = e.return_400_if_file_ext_rejected;
    is_gzip = false;
    req_content_type = none;
    file = resp.body;
    block_page_path = block_page_path;
    file_size = Echo.file_size_of ext src e resp.body;
    x_icap_metadata = e.x_icap_metadata;
  }

  -- The list that the file's extension falls under.
  abbrev pub decision : Decision
  decision =
      decide
        (get_mime_extension ext resp.body (first_content_type resp.header) (get_file_name emptied))
        e.process_exts e.reject_exts e.bypass_exts e.ext_arrs

  over_size-steps :
      (x : Extracted)
      → x.file ≡ resp.body
      → Echo.over_size ext src e x emptied
        ≡ over_size_steps ext src r resp e.x_icap_metadata e.service_name block_page_path
            (Echo.file_size_of ext src e resp.body)
            e.return_orig_if_max_size_exc
            x
            emptied
  unfolding Echo.over_size
  over_size-steps x e = rw (m, e) refl

  module _ (icap_header : Header) where
    abbrev x : Extracted
    x = extracted icap_header

    processing-checked :
        r.method == "CONNECT" ≡ false
        → Echo.processing ext src e false icap_header
            (record { request = some r; response = some resp })
          ≡ Echo.checked ext src e x emptied
    unfolding Echo.processing Echo.extract_file Echo.process_file copying_file_to_the_buffer
        log_http_msg_headers exchange
    processing-checked b = rw (m, b) refl

    checked-decided :
        Echo.checked ext src e x emptied
        ≡ (apply_decision ext src decision file_check >>= Echo.after_check ext src e x) emptied
    unfolding Echo.checked Echo.check_file Echo.extension_of check_the_extension exchange
    checked-decided = rw m refl

    -- The reply of a file that is not processed.
    stopped :
        (status : ℕ) (msg : Message) (q : Response)
        → Echo.after_check ext src e x
            (false, status, msg)
            (record { request = some r; response = some q })
          ≡ done (
            reply_with x status msg (some x.service_headers) (log_header q.header),
            record { request = some r; response = some q },
          )
    unfolding Echo.after_check log_http_msg_headers exchange
    stopped status msg q = rw m refl

    delivered-Implements :
        (reply : Reply) × (s' : HttpMsg) × (Echo.deliver ext src e x emptied ≡ done (reply, s'))
        × Implements ext resp (kept 200) reply s'
    unfolding Echo.deliver preparing_file_after_scanning returning_http_message_with_file
        log_http_msg_headers Implements exchange
    delivered-Implements =
        let q = with_file_response ext resp.body resp in
        (
          reply_with x 200 (response_message q) (some x.service_headers) (log_header resp.header),
          record { request = some r; response = some q },
          rw m refl,
          (refl, refl, refl),
        )

    -- The table for this response.
    abbrev pub table : Decision → Verdict
    table d =
        policy d e.return_400_if_file_ext_rejected (Echo.is_over_size ext src e resp.body)
          e.return_orig_if_max_size_exc (rejected_page ext file_check) too_large (kept 200)

    -- What follows a check that lets the file be processed.
    processed-Implements :
        Carries ext resp
          (table process)
          (Echo.after_check ext src e x (true, 0, nil_message) emptied)
    unfolding Echo.after_check policy
    processed-Implements = elim (Bool-cases (Echo.is_over_size ext src e resp.body)) [
      | inl over ↦
          let (reply, s', run, carried) =
            over_size-Implements ext src r resp e.x_icap_metadata e.service_name block_page_path
              (Echo.file_size_of ext src e resp.body) x e.return_orig_if_max_size_exc template in
          (reply, s', rw over (over_size-steps x refl ∙ run), rw over carried)
      | inr within ↦
          let (reply, s', run, carried) = delivered-Implements in
          (reply, s', rw within run, rw within carried)
    ]

    -- For a RESPMOD response to a request other than CONNECT, where the default block page parses, the
    -- echo service returns a reply that carries out the table: by the list that the file's extension
    -- falls under, else by the size limit (a file over it is kept with 204 or replaced, with 200, by a page
    -- of code 403), else the response goes on with 200.
    pub echo_processing-Implements :
        r.method == "CONNECT" ≡ false
        → Carries ext resp (table decision) (
            Echo.processing ext src e false icap_header
              (record { request = some r; response = some resp }))
    echo_processing-Implements no_connect =
        let (reply, s', run, carried) =
          decision-Carried ext src file_check r resp m template refl refl x
            (Echo.after_check ext src e x) stopped _ _ _ _ (processed-Implements) decision in
        (reply, s', processing-checked no_connect ∙ checked-decided ∙ run, carried)
