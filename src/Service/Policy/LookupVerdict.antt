-- ===== src/Service/Policy/LookupVerdict.antt =====
-- What becomes of a file by the lookup service's answer.
use icapegclh.Prelude.{
  String, ◌<>◌, Bool, true, false, ◌≡◌, ◌≢◌, refl, none, some, [], Bool-cases, inl, inr,
  if◌then◌else◌,
}
use icapegclh.Prelude.Int.{ℤ}
use icapegclh.Prelude.Outcome.{Outcome, done}
use icapegclh.Consts.{block_page_path}
use icapegclh.FormPart.{Bytes}
use icapegclh.Header.{lookup}
use icapegclh.Text.{contains}
use icapegclh.Http.{HttpMsg, Request, Response}
use icapegclh.External.{External, Data, Answer, bad_url, call_error, answered}
use icapegclh.Settings.{Source}
use icapegclh.Exchange.{pure, exchange}
use icapegclh.Service.Reply.{Reply, Extracted}
use icapegclh.Service.Hashlookup
use icapegclh.Service.Hashlookup.{is_known}
use icapegclh.Service.Hashlookup.Config.{Hashlookup}
use icapegclh.Service.Verdicts.{hashlookup_page, hashlookup_block-Blocked}
use icapegclh.Service.Clean.{hashlookup_deliver-Passed}
use icapegclh.Service.Policy.{Verdict, kept, blocked, failed, Implements}

-- What the lookup service says of a file; a URL that is refused is no verdict.
unfoldable pub hashlookup_verdict :
    External
    → (bypass_on_api_error : Bool) (code : ℤ) (has_body : Bool) (page : Outcome Bytes) → Answer
    → Verdict
hashlookup_verdict ext bypass_on_api_error code has_body page (answered data_map) =
    if is_known (ext.sprint (lookup "KnownMalicious" data_map))
    then blocked code has_body page
    else kept 204
hashlookup_verdict ext bypass_on_api_error code has_body page (call_error err) =
    if bypass_on_api_error
    then kept 204
    else if contains err "context deadline exceeded"
    then failed 408
    else failed 400
hashlookup_verdict ext bypass_on_api_error code has_body page bad_url = failed 400

-- The lookup's answer for the file.
abbrev pub lookup_of : External → Source → Hashlookup → Extracted → Answer
lookup_of ext src l x = ext.look_up (l.scan_url <> ext.sha256_hex x.file) l.timeout

module _ (ext : External) (src : Source) (l : Hashlookup) (r : Request) (resp : Response)
    (m : l.method_name ≡ "RESPMOD") (template : ext.template_parses block_page_path ≡ true)
    (x : Extracted) where
  -- The messages when the file has been extracted.
  abbrev emptied : HttpMsg
  emptied = record { request = some r; response = some (record resp { body = [] }) }

  abbrev unsafe : Outcome Bytes
  unsafe = hashlookup_page ext src l x r

  -- The reply by the result of `sendFileToScan`.
  judged-Implements :
      (is_mal : Bool)
      → (reply : Reply) × (s' : HttpMsg) × ((if is_mal
              then Hashlookup.block ext src l x
              else Hashlookup.deliver ext src l x)
            emptied
          ≡ done (reply, s'))
        × Implements ext
            (record resp { body = x.file })
            (if is_mal
              then blocked l.case_block_http_response_code l.case_block_http_body unsafe
              else kept 204)
            reply
            s'
  unfolding Implements
  judged-Implements true =
      hashlookup_block-Blocked ext src l x r (record resp { body = [] }) m template
  judged-Implements false =
      let (reply, s', run, passed) =
        hashlookup_deliver-Passed ext src x r (record resp { body = [] }) l m in
      (reply, s', run, (passed.status, passed.message, passed.kept))

  failed-Implements :
      (err : String)
      → Implements ext
          (record resp { body = x.file })
          (if contains err "context deadline exceeded" then failed 408 else failed 400)
          (Hashlookup.scan_failed ext src l x err)
          emptied
  unfolding Implements Hashlookup.scan_failed
  failed-Implements err = elim (Bool-cases (contains err "context deadline exceeded")) [
    | inl late ↦ rw late (refl, refl)
    | inr other ↦ rw other (refl, refl)
  ]

  -- The reply to an error of the lookup.
  error-Implements :
      (err : String) (bypassed : Bool)
      → (reply : Reply) × (s' : HttpMsg) × ((if bypassed
              then if false then Hashlookup.block ext src l x else Hashlookup.deliver ext src l x
              else pure (Hashlookup.scan_failed ext src l x err))
            emptied
          ≡ done (reply, s'))
        × Implements ext
            (record resp { body = x.file })
            (if bypassed
              then kept 204
              else if contains err "context deadline exceeded"
              then failed 408
              else failed 400)
            reply
            s'
  unfolding exchange
  error-Implements err true = judged-Implements false
  error-Implements err false =
      (Hashlookup.scan_failed ext src l x err, emptied, refl, failed-Implements err)

  send-answered :
      (data_map : Data)
      → lookup_of ext src l x ≡ answered data_map
      → Hashlookup.send_file_to_scan ext src l x.file
        ≡ done (is_known (ext.sprint (lookup "KnownMalicious" data_map)), none)
  unfolding Hashlookup.send_file_to_scan
  send-answered data_map e = rw (e, Hashlookup.send_file_to_scan) refl

  send-failed :
      (err : String)
      → lookup_of ext src l x ≡ call_error err
      → Hashlookup.send_file_to_scan ext src l x.file ≡ done (false, some err)
  unfolding Hashlookup.send_file_to_scan
  send-failed err e = rw (e, Hashlookup.send_file_to_scan) refl

  pub scan-Implements :
      (answer : Answer)
      → lookup_of ext src l x ≡ answer
      → answer ≢ bad_url
      → (reply : Reply) × (s' : HttpMsg) × (Hashlookup.scan ext src l x emptied ≡ done (reply, s'))
        × Implements ext
            (record resp { body = x.file })
            (hashlookup_verdict ext l.bypass_on_api_error l.case_block_http_response_code
              l.case_block_http_body unsafe answer)
            reply
            s'
  unfolding Hashlookup.scan Hashlookup.after_scan hashlookup_verdict exchange
  scan-Implements (answered data_map) e taken =
      let (reply, s', run, carried) =
        judged-Implements (is_known (ext.sprint (lookup "KnownMalicious" data_map))) in
      (reply, s', rw (send-answered data_map e) run, carried)
  scan-Implements (call_error err) e taken =
      let (reply, s', run, carried) = error-Implements err l.bypass_on_api_error in
      (reply, s', rw (send-failed err e) run, carried)
  scan-Implements bad_url e taken = absurd (taken refl)
