-- ===== src/Service/Policy/HashlookupPolicy.antt =====
-- Hashlookup's `processing` in RESPMOD carries out the table.
use icapegclh.Prelude.{
  ℕ, true, false, ◌≡◌, ◌≢◌, refl, ◌∙◌, none, some, [], ◌∷◌, Bool-cases, inl, inr,
}
use icapegclh.Prelude.Outcome.{Outcome, done}
use icapegclh.Consts.{block_page_path}
use icapegclh.FormPart.{Bytes}
use icapegclh.Header.{Header, add}
use icapegclh.Http.{HttpMsg, Message, Request, Response, nil_message}
use icapegclh.External.{External, Answer, bad_url}
use icapegclh.Settings.{Source}
use icapegclh.Exchange.{◌>>=◌, exchange}
use icapegclh.GeneralFunc.Extensions.{
  Decision, process, decide, FileCheck, apply_decision, check_the_extension,
}
use icapegclh.GeneralFunc.Files.{get_mime_extension, get_file_name, copying_file_to_the_buffer}
use icapegclh.GeneralFunc.Headers.{log_header, log_http_msg_headers}
use icapegclh.Service.Reply.{Extracted, reply_with, first_content_type, is_partial_content}
use icapegclh.Service.Hashlookup
use icapegclh.Service.Hashlookup.{is_known}
use icapegclh.Service.Hashlookup.Config.{Hashlookup}
use icapegclh.Service.Verdicts.{hashlookup_page}
use icapegclh.Service.Policy.{Verdict, policy, Carries}
use icapegclh.Service.Policy.Sizes.{too_large_page, over_size_steps, over_size-Implements}
use icapegclh.Service.Policy.Checks.{decision-Carried, rejected_page}
use icapegclh.Service.Policy.LookupVerdict.{hashlookup_verdict, lookup_of, scan-Implements}

module _ (ext : External) (src : Source) (l : Hashlookup) (r : Request) (resp : Response)
    (m : l.method_name ≡ "RESPMOD") (template : ext.template_parses block_page_path ≡ true) where
  -- The messages when the file has been extracted.
  abbrev emptied : HttpMsg
  emptied = record { request = some r; response = some (record resp { body = [] }) }

  abbrev extracted : Header → Extracted
  extracted icap_header = record {
    service_headers = ("X-ICAP-Metadata", l.x_icap_metadata) ∷ [];
    headers_before = log_header resp.header;
    icap_header = add ext.canonical "X-ICAP-Metadata" l.x_icap_metadata icap_header;
    file = resp.body;
    req_content_type = none;
  }

  -- The page of a file that is too large.
  abbrev too_large : Outcome Bytes
  too_large =
      too_large_page ext src r resp l.x_icap_metadata l.service_name
        (Hashlookup.exception_page_path ext src l) (Hashlookup.file_size_of ext src l resp.body)

  -- The arguments of the check.
  abbrev file_check : FileCheck
  file_check = record {
    service_name = l.service_name;
    method_name = l.method_name;
    identifier = ext.sha256_hex resp.body;
    request_uri = r.request_uri;
    return_400_if_file_ext_rejected = l.return_400_if_file_ext_rejected;
    is_gzip = false;
    req_content_type = none;
    file = resp.body;
    block_page_path = Hashlookup.exception_page_path ext src l;
    file_size = Hashlookup.file_size_of ext src l resp.body;
    x_icap_metadata = l.x_icap_metadata;
  }

  -- The list that the file's extension falls under.
  abbrev pub decision : Decision
  decision =
      decide
        (get_mime_extension ext resp.body (first_content_type resp.header) (get_file_name emptied))
        l.process_exts l.reject_exts l.bypass_exts l.ext_arrs

  over_size-steps :
      (x : Extracted)
      → x.file ≡ resp.body
      → Hashlookup.over_size ext src l x emptied
        ≡ over_size_steps ext src r resp l.x_icap_metadata l.service_name
            (Hashlookup.exception_page_path ext src l)
            (Hashlookup.file_size_of ext src l resp.body)
            l.return_orig_if_max_size_exc
            x
            emptied
  unfolding Hashlookup.over_size
  over_size-steps x e = rw (m, e) refl

  module _ (icap_header : Header) where
    abbrev x : Extracted
    x = extracted icap_header

    processing-checked :
        is_partial_content resp.status_code ≡ false
        → Hashlookup.processing ext src l false icap_header
            (record { request = some r; response = some resp })
          ≡ Hashlookup.checked ext src l x emptied
    unfolding Hashlookup.processing Hashlookup.is_byte_range Hashlookup.extract_file
        Hashlookup.process_file Hashlookup.is_connect copying_file_to_the_buffer
        log_http_msg_headers exchange
    processing-checked b = rw (m, b) refl

    checked-decided :
        Hashlookup.checked ext src l x emptied
        ≡ (apply_decision ext src decision file_check >>= Hashlookup.after_check ext src l x)
            emptied
    unfolding Hashlookup.checked Hashlookup.check_file Hashlookup.extension_of check_the_extension
        exchange
    checked-decided = rw m refl

    -- The reply of a file that is not processed.
    stopped :
        (status : ℕ) (msg : Message) (q : Response)
        → Hashlookup.after_check ext src l x
            (false, status, msg)
            (record { request = some r; response = some q })
          ≡ done (
            reply_with x status msg (some x.service_headers) (log_header q.header),
            record { request = some r; response = some q },
          )
    unfolding Hashlookup.after_check log_http_msg_headers exchange
    stopped status msg q = rw m refl

    abbrev unsafe : Outcome Bytes
    unsafe = hashlookup_page ext src l x r

    abbrev asked : Answer
    asked = lookup_of ext src l x

    -- The table for this response.
    abbrev pub table : Decision → Verdict
    table d =
        policy d l.return_400_if_file_ext_rejected (Hashlookup.is_over_size ext src l resp.body)
          l.return_orig_if_max_size_exc (rejected_page ext file_check) too_large
          (hashlookup_verdict ext l.bypass_on_api_error l.case_block_http_response_code
            l.case_block_http_body unsafe asked)

    -- What follows a check that lets the file be processed.
    processed-Implements :
        asked ≢ bad_url
        → Carries ext resp
            (table process)
            (Hashlookup.after_check ext src l x (true, 0, nil_message) emptied)
    unfolding Hashlookup.after_check policy
    processed-Implements taken = elim (Bool-cases (Hashlookup.is_over_size ext src l resp.body)) [
      | inl over ↦
          let (reply, s', run, carried) =
            over_size-Implements ext src r resp l.x_icap_metadata l.service_name
              (Hashlookup.exception_page_path ext src l)
              (Hashlookup.file_size_of ext src l resp.body) x l.return_orig_if_max_size_exc
              template in
          (reply, s', rw over (over_size-steps x refl ∙ run), rw over carried)
      | inr within ↦
          let (reply, s', run, carried) =
            scan-Implements ext src l r resp m template x asked refl taken in
          (reply, s', rw within run, rw within carried)
    ]

    -- For a RESPMOD response that is not a byte range, where the default block page parses and the
    -- lookup's URL is taken, the hash lookup service returns a reply that carries out the table: by the
    -- list that the file's extension falls under, else by the size limit (a file over it is kept with 204
    -- or replaced, with 200, by a page of code 403), else by the answer of the lookup service, where a known
    -- file is replaced by a response of the configured code, which has the page as its body or neither a
    -- body nor headers about one, as is configured, and an error counts as a clean answer where errors are
    -- bypassed, else as 408 for a timeout and as 400 for the others.
    pub hashlookup_processing-Implements :
        is_partial_content resp.status_code ≡ false
        → asked ≢ bad_url
        → Carries ext resp (table decision) (
            Hashlookup.processing ext src l false icap_header
              (record { request = some r; response = some resp }))
    hashlookup_processing-Implements whole taken =
        let (reply, s', run, carried) =
          decision-Carried ext src file_check r resp m template refl refl x
            (Hashlookup.after_check ext src l x) stopped _ _ _ _ (processed-Implements taken)
            decision in
        (reply, s', processing-checked whole ∙ checked-decided ∙ run, carried)
