-- ===== src/Service/Kinds/HashlookupFits.antt =====
-- The message in Hashlookup's reply.
use icapegclh.Prelude.{
  ℕ, String, Bool, true, false, Option, inl, inr, refl, if◌then◌else◌, some, none, [], ◌==◌,
}
use icapegclh.Header.{Header}
use icapegclh.Http.{Message, nil_message, whole_message}
use icapegclh.External.{External}
use icapegclh.Settings.{Source}
use icapegclh.Exchange.{pure}
use icapegclh.Text.{contains}
use icapegclh.Exchange.Ensures.{
  Ensures, Ensures-pure, Ensures-abort, Ensures-if, Ensures-if_known, Ensures-then, Ensures-bind,
  Ensures-bind_after, Ensures-maybe,
}
use icapegclh.GeneralFunc.Kinds.{
  nothing, a_request, a_response, not_resp, is_method, IsMod, CheckFits, Ensures-made,
  set_message_body-Fits, returning_http_message_with_file-Fits, if_status_is_204_with_file-Fits,
  if_max_file_size_exc-Fits, check_the_extension-Fits,
}
use icapegclh.Service.Reply.{Reply, Extracted, reply_with}
use icapegclh.Service.Hashlookup
use icapegclh.Service.Hashlookup.Config.{Hashlookup}
use icapegclh.Service.Kinds.{ReplyFits, WholeFits, WholeFits-Ensures}

module _ (ext : External) (src : Source) (h : Hashlookup) (m_known : IsMod h.method_name) where
  abbrev HashlookupReply : Reply → Type 0
  HashlookupReply = ReplyFits h.method_name

  check_file-Fits :
      (x : Extracted) → Ensures (CheckFits h.method_name) (Hashlookup.check_file ext src h x)
  unfolding Hashlookup.check_file
  check_file-Fits x = Ensures-bind _ _ (λ extension.
      Ensures-bind _ _
        (λ r. check_the_extension-Fits h.method_name m_known ext src extension _ _ _ _ _ refl))

  over_size-Fits : (x : Extracted) → Ensures HashlookupReply (Hashlookup.over_size ext src h x)
  unfolding Hashlookup.over_size
  over_size-Fits x =
      Ensures-bind_after _ _ (if_max_file_size_exc-Fits h.method_name m_known ext src _ _ _ _ _ _)
        (λ (status, page, msg) fits. Ensures-maybe page _ _ Ensures-abort (λ file.
          Ensures-bind_after _ _
            (if_status_is_204_with_file-Fits h.method_name m_known ext status file false
              x.req_content_type msg true fits)
            (λ prepared made.
              Ensures-made prepared _ _ made (Ensures-pure _ nothing) (λ body m fits'.
                Ensures-bind_after _ _ (set_message_body-Fits h.method_name m_known m body fits')
                  (λ m' h.
                    Ensures-bind _ _
                      (λ after. Ensures-pure (reply_with x status m' none after) h))))))

  block-Fits : (x : Extracted) → Ensures HashlookupReply (Hashlookup.block ext src h x)
  unfolding Hashlookup.block
  block-Fits x =
      Ensures-if_known (h.method_name == "RESPMOD") _ _
        (λ e. Ensures-bind _ _ (λ req. Ensures-bind _ _ (λ page. Ensures-then _ _ (
          Ensures-bind _ _
            (λ after. Ensures-pure _ (a_response (is_method h.method_name "RESPMOD" e)))))))
        (λ e. Ensures-bind _ _ (λ made. Ensures-maybe made _ _ (Ensures-pure _ nothing) (λ p.
          Ensures-bind _ _
            (λ after. Ensures-pure _ (a_request (not_resp h.method_name m_known e))))))

  deliver-Fits : (x : Extracted) → Ensures HashlookupReply (Hashlookup.deliver ext src h x)
  unfolding Hashlookup.deliver
  deliver-Fits x = Ensures-bind _ _ (λ after. Ensures-bind _ _ (λ scanned.
      Ensures-bind_after _ _
        (returning_http_message_with_file-Fits h.method_name m_known ext scanned)
        (λ m fits. Ensures-pure (reply_with x 204 m (some x.service_headers) after) fits)))

  scan_failed-Fits :
      (x : Extracted) (err : String)
      → Ensures HashlookupReply (pure (Hashlookup.scan_failed ext src h x err))
  unfolding Hashlookup.scan_failed
  scan_failed-Fits x err = Ensures-pure _ (either (contains err "context deadline exceeded"))
    where
      either :
          (b : Bool)
          → HashlookupReply (
              if b
              then reply_with x 408 nil_message none []
              else reply_with x 400 nil_message none [])
      either true = nothing
      either false = nothing

  after_scan-Fits :
      (x : Extracted) (is_mal : Bool) (err : Option String)
      → Ensures HashlookupReply (Hashlookup.after_scan ext src h x is_mal err)
  unfolding Hashlookup.after_scan
  after_scan-Fits x is_mal (some err) =
      Ensures-if h.bypass_on_api_error _ _ (Ensures-if is_mal _ _ (block-Fits x) (deliver-Fits x))
        (scan_failed-Fits x err)
  after_scan-Fits x is_mal none = Ensures-if is_mal _ _ (block-Fits x) (deliver-Fits x)

  scan-Fits : (x : Extracted) → Ensures HashlookupReply (Hashlookup.scan ext src h x)
  unfolding Hashlookup.scan
  scan-Fits x = Ensures-bind _ _ (λ r. after_scan-Fits x _ _)

  after_check-Fits :
      (x : Extracted) (c : Bool × ℕ × Message)
      → CheckFits h.method_name c
      → Ensures HashlookupReply (Hashlookup.after_check ext src h x c)
  unfolding Hashlookup.after_check
  after_check-Fits x (true, status, m) fits =
      Ensures-if (Hashlookup.is_over_size ext src h x.file) _ _ (over_size-Fits x) (scan-Fits x)
  after_check-Fits x (false, status, m) fits =
      Ensures-bind _ _
        (λ after. Ensures-pure (reply_with x status m (some x.service_headers) after) fits)

  checked-Fits : (x : Extracted) → Ensures HashlookupReply (Hashlookup.checked ext src h x)
  unfolding Hashlookup.checked
  checked-Fits x = Ensures-bind_after _ _ (check_file-Fits x) (after_check-Fits x)

  connected-Fits : (x : Extracted) → Ensures HashlookupReply (Hashlookup.connected ext src h x)
  unfolding Hashlookup.connected
  connected-Fits x =
      Ensures-bind_after _ _
        (returning_http_message_with_file-Fits h.method_name m_known ext x.file)
        (λ m h. Ensures-pure (reply_with x 200 m (some x.service_headers) []) h)

  process_file-Fits :
      (x : Extracted) → Ensures HashlookupReply (Hashlookup.process_file ext src h x)
  unfolding Hashlookup.process_file
  process_file-Fits x = Ensures-bind _ _ (λ r. Ensures-if r _ _ (connected-Fits x) (checked-Fits x))

  extract_file-Fits :
      (x : Extracted) → Ensures HashlookupReply (Hashlookup.extract_file ext src h x)
  unfolding Hashlookup.extract_file
  extract_file-Fits x =
      Ensures-bind _ _
        (λ copied. Ensures-maybe copied _ _ (Ensures-pure _ nothing) (λ r. process_file-Fits _))

  byte_range_reply-WholeFits :
      (x : Extracted) → Ensures (WholeFits h.method_name) (Hashlookup.byte_range_reply ext src h x)
  unfolding Hashlookup.byte_range_reply
  byte_range_reply-WholeFits x = Ensures-bind _ _ (λ msg.
      Ensures-pure (reply_with x 204 (whole_message msg) (some x.service_headers) [])
        (inr (msg, refl, refl)))

  pub hashlookup_processing-WholeFits :
      (partial : Bool) (icap_header : Header)
      → Ensures (WholeFits h.method_name) (Hashlookup.processing ext src h partial icap_header)
  unfolding Hashlookup.processing
  hashlookup_processing-WholeFits true icap_header =
      Ensures-bind _ _ (λ before. Ensures-bind _ _ (λ b. Ensures-pure _ (inl nothing)))
  hashlookup_processing-WholeFits false icap_header = Ensures-bind _ _ (λ before.
      Ensures-bind _ _ (λ b.
        Ensures-if b (Hashlookup.byte_range_reply ext src h _) (Hashlookup.extract_file ext src h _)
          (byte_range_reply-WholeFits _) (WholeFits-Ensures h.method_name _ (extract_file-Fits _))))
