-- ===== src/Service/Policy/ClamavPolicy.antt =====
-- Clamav's `processing` in RESPMOD carries out the table.
use icapegclh.Prelude.{
  ℕ, Bool, true, false, ◌≡◌, ◌≢◌, refl, ◌∙◌, ◌==◌, none, some, [], ◌∷◌, Bool-cases, inl, inr,
  if◌then◌else◌,
}
use icapegclh.Prelude.Int.{ℤ}
use icapegclh.Prelude.Outcome.{Outcome, done}
use icapegclh.Consts.{block_page_path}
use icapegclh.FormPart.{Bytes}
use icapegclh.Header.{Header, add}
use icapegclh.Http.{HttpMsg, Message, Request, Response, nil_message}
use icapegclh.External.{External, ScanStream, scan_error, scan_closed, scan_open}
use icapegclh.Settings.{Source}
use icapegclh.Exchange.{◌>>=◌, exchange}
use icapegclh.GeneralFunc.Extensions.{
  Decision, process, decide, FileCheck, apply_decision, check_the_extension,
}
use icapegclh.GeneralFunc.Files.{get_mime_extension, get_file_name, copying_file_to_the_buffer}
use icapegclh.GeneralFunc.Headers.{log_header, log_http_msg_headers}
use icapegclh.Service.Reply.{Reply, Extracted, reply_with, first_content_type, is_partial_content}
use icapegclh.Service.Clamav
use icapegclh.Service.Clamav.{last_result}
use icapegclh.Service.Clamav.Config.{Clamav}
use icapegclh.Service.Verdicts.{clamav_page, clamav_block-Blocked, after_scan-found}
use icapegclh.Service.Clean.{clamav_deliver-Passed, after_scan-clean}
use icapegclh.Service.Policy.{Verdict, kept, blocked, failed, policy, Implements, Carries}
use icapegclh.Service.Policy.Sizes.{too_large_page, over_size_steps, over_size-Implements}
use icapegclh.Service.Policy.Checks.{decision-Carried, rejected_page}

-- What the daemon says of a file; a stream that is open after five seconds is no verdict.
unfoldable pub clamav_verdict :
    (code : ℤ) (has_body : Bool) (page : Outcome Bytes) → ScanStream → Verdict
clamav_verdict code has_body page (scan_error err) = failed 500
clamav_verdict code has_body page (scan_closed results) =
    if (last_result (record { status = ""; description = "" }) results).status == "FOUND"
    then blocked code has_body page
    else kept 204
clamav_verdict code has_body page scan_open = failed 408

module _ (ext : External) (src : Source) (c : Clamav) (r : Request) (resp : Response)
    (m : c.method_name ≡ "RESPMOD") (template : ext.template_parses block_page_path ≡ true) where
  -- The messages when the file has been extracted.
  abbrev emptied : HttpMsg
  emptied = record { request = some r; response = some (record resp { body = [] }) }

  abbrev extracted : Header → Extracted
  extracted icap_header = record {
    service_headers = ("X-ICAP-Metadata", c.x_icap_metadata) ∷ [];
    headers_before = log_header resp.header;
    icap_header = add ext.canonical "X-ICAP-Metadata" c.x_icap_metadata icap_header;
    file = resp.body;
    req_content_type = none;
  }

  -- The page of a file that is too large.
  abbrev too_large : Outcome Bytes
  too_large =
      too_large_page ext src r resp c.x_icap_metadata c.service_name
        (Clamav.exception_page_path ext src c) (Clamav.file_size_of ext src c resp.body)

  -- The arguments of the check.
  abbrev file_check : FileCheck
  file_check = record {
    service_name = c.service_name;
    method_name = c.method_name;
    identifier = ext.sha256_hex resp.body;
    request_uri = r.request_uri;
    return_400_if_file_ext_rejected = c.return_400_if_file_ext_rejected;
    is_gzip = false;
    req_content_type = none;
    file = resp.body;
    block_page_path = Clamav.exception_page_path ext src c;
    file_size = Clamav.file_size_of ext src c resp.body;
    x_icap_metadata = c.x_icap_metadata;
  }

  -- The list that the file's extension falls under.
  abbrev pub decision : Decision
  decision =
      decide
        (get_mime_extension ext resp.body (first_content_type resp.header) (get_file_name emptied))
        c.process_exts c.reject_exts c.bypass_exts c.ext_arrs

  over_size-steps :
      (x : Extracted)
      → x.file ≡ resp.body
      → Clamav.over_size ext src c x emptied
        ≡ over_size_steps ext src r resp c.x_icap_metadata c.service_name
            (Clamav.exception_page_path ext src c)
            (Clamav.file_size_of ext src c resp.body)
            c.return_orig_if_max_size_exc
            x
            emptied
  unfolding Clamav.over_size
  over_size-steps x e = rw (m, e) refl

  module _ (icap_header : Header) where
    abbrev x : Extracted
    x = extracted icap_header

    processing-checked :
        is_partial_content resp.status_code ≡ false
        → Clamav.processing ext src c false icap_header
            (record { request = some r; response = some resp })
          ≡ Clamav.checked ext src c x emptied
    unfolding Clamav.processing Clamav.is_byte_range Clamav.extract_file Clamav.process_file
        Clamav.is_connect copying_file_to_the_buffer log_http_msg_headers exchange
    processing-checked b = rw (m, b) refl

    checked-decided :
        Clamav.checked ext src c x emptied
        ≡ (apply_decision ext src decision file_check >>= Clamav.after_check ext src c x) emptied
    unfolding Clamav.checked Clamav.check_file Clamav.extension_of check_the_extension exchange
    checked-decided = rw m refl

    -- The reply of a file that is not processed.
    stopped :
        (status : ℕ) (msg : Message) (q : Response)
        → Clamav.after_check ext src c x
            (false, status, msg)
            (record { request = some r; response = some q })
          ≡ done (
            reply_with x status msg (some x.service_headers) (log_header q.header),
            record { request = some r; response = some q },
          )
    unfolding Clamav.after_check log_http_msg_headers exchange
    stopped status msg q = rw m refl

    abbrev unsafe : Outcome Bytes
    unsafe = clamav_page ext src c x r

    stream-Implements :
        (stream : ScanStream)
        → stream ≢ scan_open
        → (reply : Reply) × (s' : HttpMsg) × (Clamav.after_stream ext src c x stream emptied
            ≡ done (reply, s'))
          × Implements ext resp
              (clamav_verdict c.case_block_http_response_code c.case_block_http_body unsafe stream)
              reply
              s'
    unfolding Clamav.after_stream clamav_verdict Implements exchange
    stream-Implements (scan_error err) closed =
        (reply_with x 500 nil_message (some x.service_headers) [], emptied, refl, (refl, refl))
    stream-Implements (scan_closed results) closed =
        let result = last_result (record { status = ""; description = "" }) results in
        elim (Bool-cases (result.status == "FOUND")) [
          | inl found ↦
              let (reply, s', run, is_blocked) =
                clamav_block-Blocked ext src c x result r (record resp { body = [] }) m template in
              (
                reply,
                s',
                after_scan-found ext src c x result emptied found ∙ run,
                rw found is_blocked,
              )
          | inr clean ↦
              let (reply, s', run, passed) =
                clamav_deliver-Passed ext src x r (record resp { body = [] }) c m in
              (
                reply,
                s',
                after_scan-clean ext src x r (record resp { body = [] }) c result emptied clean
                    ∙ run,
                rw clean (passed.status, passed.message, passed.kept),
              )
        ]
    stream-Implements scan_open closed = absurd (closed refl)

    -- The table for this response.
    abbrev pub table : Decision → Verdict
    table d =
        policy d c.return_400_if_file_ext_rejected (Clamav.is_over_size ext src c resp.body)
          c.return_orig_if_max_size_exc (rejected_page ext file_check) too_large
          (clamav_verdict c.case_block_http_response_code c.case_block_http_body unsafe
            (ext.scan_stream c.socket_path resp.body))

    -- What follows a check that lets the file be processed.
    processed-Implements :
        ext.scan_stream c.socket_path resp.body ≢ scan_open
        → Carries ext resp
            (table process)
            (Clamav.after_check ext src c x (true, 0, nil_message) emptied)
    unfolding Clamav.after_check Clamav.scan policy
    processed-Implements closed = elim (Bool-cases (Clamav.is_over_size ext src c resp.body)) [
      | inl over ↦
          let (reply, s', run, carried) =
            over_size-Implements ext src r resp c.x_icap_metadata c.service_name
              (Clamav.exception_page_path ext src c) (Clamav.file_size_of ext src c resp.body) x
              c.return_orig_if_max_size_exc template in
          (reply, s', rw over (over_size-steps x refl ∙ run), rw over carried)
      | inr within ↦
          let (reply, s', run, carried) =
            stream-Implements (ext.scan_stream c.socket_path resp.body) closed in
          (reply, s', rw within run, rw within carried)
    ]

    -- For a RESPMOD response that is not a byte range, where the default block page parses and the
    -- daemon's stream does not stay open, the ClamAV service returns a reply that carries out the table:
    -- by the list that the file's extension falls under, else by the size limit (a file over it is kept
    -- with 204 or replaced, with 200, by a page of code 403), else by the last result of the daemon, where
    -- a file that is found is replaced by a response of the configured code, which has the page as its
    -- body or neither a body nor headers about one, as is configured.
    pub clamav_processing-Implements :
        is_partial_content resp.status_code ≡ false
        → ext.scan_stream c.socket_path resp.body ≢ scan_open
        → Carries ext resp (table decision) (
            Clamav.processing ext src c false icap_header
              (record { request = some r; response = some resp }))
    clamav_processing-Implements whole closed =
        let (reply, s', run, carried) =
          decision-Carried ext src file_check r resp m template refl refl x
            (Clamav.after_check ext src c x) stopped _ _ _ _ (processed-Implements closed)
            decision in
        (reply, s', processing-checked whole ∙ checked-decided ∙ run, carried)
