-- ===== src/Service/Status/HashlookupFinal.antt =====
-- The statuses that Hashlookup's `processing` returns for a whole body.
use icapegclh.Prelude.{Bool-cases, inl, inr, ℕ, String, Bool, true, false, refl, Option, none, some}
use icapegclh.Header.{Header}
use icapegclh.Http.{Message}
use icapegclh.External.{External}
use icapegclh.Settings.{Source}
use icapegclh.Text.{contains}
use icapegclh.Exchange.Ensures.{
  Ensures, Ensures-pure, Ensures-if, Ensures-bind, Ensures-bind_after, ensures_rules,
}
use icapegclh.Service.Reply.{Extracted, reply_with}
use icapegclh.Service.Hashlookup
use icapegclh.Service.Hashlookup.Config.{Hashlookup}
use icapegclh.Service.Status.{
  CheckIsFinal, ReplyIsFinal, final_408, final_400, final_rules, check_the_extension-IsFinal,
  if_max_file_size_exc-IsFinal,
}

module _ (ext : External) (src : Source) (h : Hashlookup) where
  check_file-IsFinal : (x : Extracted) → Ensures CheckIsFinal (Hashlookup.check_file ext src h x)
  unfolding Hashlookup.check_file
  check_file-IsFinal x =
      Ensures-bind _ _
        (λ e. Ensures-bind _ _ (λ r. check_the_extension-IsFinal ext src e _ _ _ _ _))

  over_size-IsFinal : (x : Extracted) → Ensures ReplyIsFinal (Hashlookup.over_size ext src h x)
  unfolding Hashlookup.over_size
  over_size-IsFinal x =
      Ensures-bind_after _ _ (if_max_file_size_exc-IsFinal ext src _ _ _ _ _ _ _)
        (λ a h. search (ensures_rules, final_rules, h) depth 12)

  deliver-IsFinal : (x : Extracted) → Ensures ReplyIsFinal (Hashlookup.deliver ext src h x)
  unfolding Hashlookup.deliver
  deliver-IsFinal x = search (ensures_rules, final_rules) depth 12

  block-IsFinal : (x : Extracted) → Ensures ReplyIsFinal (Hashlookup.block ext src h x)
  unfolding Hashlookup.block
  block-IsFinal x = search (ensures_rules, final_rules) depth 12

  scan_failed-IsFinal :
      (x : Extracted) (err : String) → ReplyIsFinal (Hashlookup.scan_failed ext src h x err)
  unfolding Hashlookup.scan_failed
  scan_failed-IsFinal x err = elim (Bool-cases (contains err "context deadline exceeded")) [
    | inl late ↦ rw late final_408
    | inr other ↦ rw other final_400
  ]

  after_scan-IsFinal :
      (x : Extracted) (is_mal : Bool) (err : Option String)
      → Ensures ReplyIsFinal (Hashlookup.after_scan ext src h x is_mal err)
  unfolding Hashlookup.after_scan
  after_scan-IsFinal x is_mal (some err) =
      Ensures-if _ _ _ (Ensures-if _ _ _ (block-IsFinal x) (deliver-IsFinal x))
        (Ensures-pure _ (scan_failed-IsFinal x err))
  after_scan-IsFinal x is_mal none = Ensures-if _ _ _ (block-IsFinal x) (deliver-IsFinal x)

  scan-IsFinal : (x : Extracted) → Ensures ReplyIsFinal (Hashlookup.scan ext src h x)
  unfolding Hashlookup.scan
  scan-IsFinal x = Ensures-bind _ _ (λ r. after_scan-IsFinal x _ _)

  after_check-IsFinal :
      (x : Extracted) (checked : Bool × ℕ × Message)
      → CheckIsFinal checked
      → Ensures ReplyIsFinal (Hashlookup.after_check ext src h x checked)
  unfolding Hashlookup.after_check
  after_check-IsFinal x (true, status, m) final =
      Ensures-if (Hashlookup.is_over_size ext src h x.file) _ _ (over_size-IsFinal x)
        (scan-IsFinal x)
  after_check-IsFinal x (false, status, m) final =
      Ensures-bind _ _
        (λ after. Ensures-pure (reply_with x status m (some x.service_headers) after) (final refl))

  checked-IsFinal : (x : Extracted) → Ensures ReplyIsFinal (Hashlookup.checked ext src h x)
  unfolding Hashlookup.checked
  checked-IsFinal x = Ensures-bind_after _ _ (check_file-IsFinal x) (after_check-IsFinal x)

  connected-IsFinal : (x : Extracted) → Ensures ReplyIsFinal (Hashlookup.connected ext src h x)
  unfolding Hashlookup.connected
  connected-IsFinal x = search (ensures_rules, final_rules)

  process_file-IsFinal :
      (x : Extracted) → Ensures ReplyIsFinal (Hashlookup.process_file ext src h x)
  unfolding Hashlookup.process_file
  process_file-IsFinal x = Ensures-bind _ _ (λ r.
      Ensures-if (r) (Hashlookup.connected ext src h x) (Hashlookup.checked ext src h x)
        (connected-IsFinal x) (checked-IsFinal x))

  extract_file-IsFinal :
      (x : Extracted) → Ensures ReplyIsFinal (Hashlookup.extract_file ext src h x)
  unfolding Hashlookup.extract_file
  extract_file-IsFinal x = search (ensures_rules, final_rules, process_file-IsFinal) depth 8

  byte_range-IsFinal :
      (x : Extracted) → Ensures ReplyIsFinal (Hashlookup.byte_range_reply ext src h x)
  unfolding Hashlookup.byte_range_reply
  byte_range-IsFinal x = search (ensures_rules, final_rules)

  pub hashlookup_processing-IsFinal :
      (icap_header : Header)
      → Ensures ReplyIsFinal (Hashlookup.processing ext src h false icap_header)
  unfolding Hashlookup.processing
  hashlookup_processing-IsFinal icap_header = Ensures-bind _ _ (λ before. Ensures-bind _ _ (λ b.
      Ensures-if b (Hashlookup.byte_range_reply ext src h _) (Hashlookup.extract_file ext src h _)
        (byte_range-IsFinal _) (extract_file-IsFinal _)))
