-- ===== src/Service/Status/EchoFinal.antt =====
-- The statuses that Echo's `processing` returns for a whole body.
use icapegclh.Prelude.{ℕ, Bool, true, false, refl, some, ◌==◌}
use icapegclh.Header.{Header}
use icapegclh.Http.{Message}
use icapegclh.External.{External}
use icapegclh.Settings.{Source}
use icapegclh.Exchange.Ensures.{
  Ensures, Ensures-pure, Ensures-if, Ensures-bind, Ensures-bind_after, ensures_rules,
}
use icapegclh.Service.Reply.{Extracted, reply_with}
use icapegclh.Service.Echo
use icapegclh.Service.Echo.Config.{Echo}
use icapegclh.Service.Status.{
  CheckIsFinal, ReplyIsFinal, final_rules, check_the_extension-IsFinal,
  if_max_file_size_exc-IsFinal,
}

module _ (ext : External) (src : Source) (e : Echo) where
  check_file-IsFinal : (x : Extracted) → Ensures CheckIsFinal (Echo.check_file ext src e x)
  unfolding Echo.check_file
  check_file-IsFinal x =
      Ensures-bind _ _
        (λ e. Ensures-bind _ _ (λ r. check_the_extension-IsFinal ext src e _ _ _ _ _))

  over_size-IsFinal : (x : Extracted) → Ensures ReplyIsFinal (Echo.over_size ext src e x)
  unfolding Echo.over_size
  over_size-IsFinal x =
      Ensures-bind_after _ _ (if_max_file_size_exc-IsFinal ext src _ _ _ _ _ _ _)
        (λ a h. search (ensures_rules, final_rules, h) depth 12)

  deliver-IsFinal : (x : Extracted) → Ensures ReplyIsFinal (Echo.deliver ext src e x)
  unfolding Echo.deliver
  deliver-IsFinal x = search (ensures_rules, final_rules) depth 12

  after_check-IsFinal :
      (x : Extracted) (checked : Bool × ℕ × Message)
      → CheckIsFinal checked
      → Ensures ReplyIsFinal (Echo.after_check ext src e x checked)
  unfolding Echo.after_check
  after_check-IsFinal x (true, status, m) final =
      Ensures-if (Echo.is_over_size ext src e x.file) _ _ (over_size-IsFinal x) (deliver-IsFinal x)
  after_check-IsFinal x (false, status, m) final =
      Ensures-bind _ _
        (λ after. Ensures-pure (reply_with x status m (some x.service_headers) after) (final refl))

  checked-IsFinal : (x : Extracted) → Ensures ReplyIsFinal (Echo.checked ext src e x)
  unfolding Echo.checked
  checked-IsFinal x = Ensures-bind_after _ _ (check_file-IsFinal x) (after_check-IsFinal x)

  connected-IsFinal : (x : Extracted) → Ensures ReplyIsFinal (Echo.connected ext src e x)
  unfolding Echo.connected
  connected-IsFinal x = search (ensures_rules, final_rules)

  process_file-IsFinal : (x : Extracted) → Ensures ReplyIsFinal (Echo.process_file ext src e x)
  unfolding Echo.process_file
  process_file-IsFinal x = Ensures-bind _ _ (λ r.
      Ensures-if (r.method == "CONNECT") (Echo.connected ext src e x) (Echo.checked ext src e x)
        (connected-IsFinal x) (checked-IsFinal x))

  extract_file-IsFinal : (x : Extracted) → Ensures ReplyIsFinal (Echo.extract_file ext src e x)
  unfolding Echo.extract_file
  extract_file-IsFinal x = search (ensures_rules, final_rules, process_file-IsFinal) depth 8

  pub echo_processing-IsFinal :
      (icap_header : Header) → Ensures ReplyIsFinal (Echo.processing ext src e false icap_header)
  unfolding Echo.processing
  echo_processing-IsFinal icap_header = Ensures-bind _ _ (λ before. extract_file-IsFinal _)
