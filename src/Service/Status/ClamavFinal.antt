-- ===== src/Service/Status/ClamavFinal.antt =====
-- The statuses that Clamav's `processing` returns for a whole body.
use icapegclh.Prelude.{ℕ, Bool, true, false, refl, some, ◌==◌}
use icapegclh.Header.{Header}
use icapegclh.Http.{Message}
use icapegclh.External.{External, ScanStream, scan_error, scan_closed, scan_open, ScanResult}
use icapegclh.Settings.{Source}
use icapegclh.Exchange.Ensures.{
  Ensures, Ensures-pure, Ensures-if, Ensures-bind, Ensures-bind_after, ensures_rules,
}
use icapegclh.Service.Reply.{Extracted, reply_with}
use icapegclh.Service.Clamav
use icapegclh.Service.Clamav.Config.{Clamav}
use icapegclh.Service.Status.{
  CheckIsFinal, ReplyIsFinal, final_rules, check_the_extension-IsFinal,
  if_max_file_size_exc-IsFinal,
}

module _ (ext : External) (src : Source) (c : Clamav) where
  check_file-IsFinal : (x : Extracted) → Ensures CheckIsFinal (Clamav.check_file ext src c x)
  unfolding Clamav.check_file
  check_file-IsFinal x =
      Ensures-bind _ _
        (λ e. Ensures-bind _ _ (λ r. check_the_extension-IsFinal ext src e _ _ _ _ _))

  over_size-IsFinal : (x : Extracted) → Ensures ReplyIsFinal (Clamav.over_size ext src c x)
  unfolding Clamav.over_size
  over_size-IsFinal x =
      Ensures-bind_after _ _ (if_max_file_size_exc-IsFinal ext src _ _ _ _ _ _ _)
        (λ a h. search (ensures_rules, final_rules, h) depth 12)

  deliver-IsFinal : (x : Extracted) → Ensures ReplyIsFinal (Clamav.deliver ext src c x)
  unfolding Clamav.deliver
  deliver-IsFinal x = search (ensures_rules, final_rules) depth 12

  block-IsFinal :
      (x : Extracted) (r : ScanResult) → Ensures ReplyIsFinal (Clamav.block ext src c x r)
  unfolding Clamav.block
  block-IsFinal x r = search (ensures_rules, final_rules) depth 12

  after_scan-IsFinal :
      (x : Extracted) (r : ScanResult) → Ensures ReplyIsFinal (Clamav.after_scan ext src c x r)
  unfolding Clamav.after_scan
  after_scan-IsFinal x r =
      Ensures-if (r.status == "FOUND") _ _ (block-IsFinal x r) (deliver-IsFinal x)

  after_stream-IsFinal :
      (x : Extracted) (r : ScanStream) → Ensures ReplyIsFinal (Clamav.after_stream ext src c x r)
  unfolding Clamav.after_stream Clamav.not_finished
  after_stream-IsFinal x (scan_error err) = search (ensures_rules, final_rules)
  after_stream-IsFinal x (scan_closed results) = after_scan-IsFinal x _
  after_stream-IsFinal x scan_open = search ensures_rules

  scan-IsFinal : (x : Extracted) → Ensures ReplyIsFinal (Clamav.scan ext src c x)
  unfolding Clamav.scan
  scan-IsFinal x = after_stream-IsFinal x _

  after_check-IsFinal :
      (x : Extracted) (checked : Bool × ℕ × Message)
      → CheckIsFinal checked
      → Ensures ReplyIsFinal (Clamav.after_check ext src c x checked)
  unfolding Clamav.after_check
  after_check-IsFinal x (true, status, m) final =
      Ensures-if (Clamav.is_over_size ext src c x.file) _ _ (over_size-IsFinal x) (scan-IsFinal x)
  after_check-IsFinal x (false, status, m) final =
      Ensures-bind _ _
        (λ after. Ensures-pure (reply_with x status m (some x.service_headers) after) (final refl))

  checked-IsFinal : (x : Extracted) → Ensures ReplyIsFinal (Clamav.checked ext src c x)
  unfolding Clamav.checked
  checked-IsFinal x = Ensures-bind_after _ _ (check_file-IsFinal x) (after_check-IsFinal x)

  connected-IsFinal : (x : Extracted) → Ensures ReplyIsFinal (Clamav.connected ext src c x)
  unfolding Clamav.connected
  connected-IsFinal x = search (ensures_rules, final_rules)

  process_file-IsFinal : (x : Extracted) → Ensures ReplyIsFinal (Clamav.process_file ext src c x)
  unfolding Clamav.process_file
  process_file-IsFinal x = Ensures-bind _ _ (λ r.
      Ensures-if (r) (Clamav.connected ext src c x) (Clamav.checked ext src c x)
        (connected-IsFinal x) (checked-IsFinal x))

  extract_file-IsFinal : (x : Extracted) → Ensures ReplyIsFinal (Clamav.extract_file ext src c x)
  unfolding Clamav.extract_file
  extract_file-IsFinal x = search (ensures_rules, final_rules, process_file-IsFinal) depth 8

  byte_range-IsFinal : (x : Extracted) → Ensures ReplyIsFinal (Clamav.byte_range_reply ext src c x)
  unfolding Clamav.byte_range_reply
  byte_range-IsFinal x = search (ensures_rules, final_rules)

  pub clamav_processing-IsFinal :
      (icap_header : Header) → Ensures ReplyIsFinal (Clamav.processing ext src c false icap_header)
  unfolding Clamav.processing
  clamav_processing-IsFinal icap_header = Ensures-bind _ _ (λ before. Ensures-bind _ _ (λ b.
      Ensures-if b (Clamav.byte_range_reply ext src c _) (Clamav.extract_file ext src c _)
        (byte_range-IsFinal _) (extract_file-IsFinal _)))
