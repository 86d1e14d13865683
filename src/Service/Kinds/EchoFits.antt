-- ===== src/Service/Kinds/EchoFits.antt =====
-- The message in Echo's reply.
use icapegclh.Prelude.{ℕ, Bool, true, false, refl, some, none, [], ◌==◌}
use icapegclh.Header.{Header}
use icapegclh.Http.{Message}
use icapegclh.External.{External}
use icapegclh.Settings.{Source}
use icapegclh.Exchange.Ensures.{
  Ensures, Ensures-pure, Ensures-abort, Ensures-if, Ensures-bind, Ensures-bind_after, Ensures-maybe,
}
use icapegclh.GeneralFunc.Kinds.{
  nothing, IsMod, CheckFits, Ensures-made, set_message_body-Fits,
  returning_http_message_with_file-Fits, if_status_is_204_with_file-Fits, if_max_file_size_exc-Fits,
  check_the_extension-Fits,
}
use icapegclh.Service.Reply.{Reply, Extracted, reply_with}
use icapegclh.Service.Echo
use icapegclh.Service.Echo.Config.{Echo}
use icapegclh.Service.Kinds.{ReplyFits}

module _ (ext : External) (src : Source) (e : Echo) (m_known : IsMod e.method_name) where
  abbrev EchoReply : Reply → Type 0
  EchoReply = ReplyFits e.method_name

  check_file-Fits :
      (x : Extracted) → Ensures (CheckFits e.method_name) (Echo.check_file ext src e x)
  unfolding Echo.check_file
  check_file-Fits x = Ensures-bind _ _ (λ extension.
      Ensures-bind _ _
        (λ r. check_the_extension-Fits e.method_name m_known ext src extension _ _ _ _ _ refl))

  over_size-Fits : (x : Extracted) → Ensures EchoReply (Echo.over_size ext src e x)
  unfolding Echo.over_size
  over_size-Fits x =
      Ensures-bind_after _ _ (if_max_file_size_exc-Fits e.method_name m_known ext src _ _ _ _ _ _)
        (λ (status, page, msg) fits. Ensures-maybe page _ _ Ensures-abort (λ file.
          Ensures-bind_after _ _
            (if_status_is_204_with_file-Fits e.method_name m_known ext status file false
              x.req_content_type msg true fits)
            (λ prepared made.
              Ensures-made prepared _ _ made (Ensures-pure _ nothing) (λ body m fits'.
                Ensures-bind_after _ _ (set_message_body-Fits e.method_name m_known m body fits')
                  (λ m' h.
                    Ensures-bind _ _
                      (λ after. Ensures-pure (reply_with x status m' none after) h))))))

  deliver-Fits : (x : Extracted) → Ensures EchoReply (Echo.deliver ext src e x)
  unfolding Echo.deliver
  deliver-Fits x = Ensures-bind _ _ (λ scanned. Ensures-bind _ _ (λ after.
      Ensures-bind_after _ _
        (returning_http_message_with_file-Fits e.method_name m_known ext scanned)
        (λ m h. Ensures-pure (reply_with x 200 m (some x.service_headers) after) h)))

  after_check-Fits :
      (x : Extracted) (c : Bool × ℕ × Message)
      → CheckFits e.method_name c
      → Ensures EchoReply (Echo.after_check ext src e x c)
  unfolding Echo.after_check
  after_check-Fits x (true, status, m) fits =
      Ensures-if (Echo.is_over_size ext src e x.file) _ _ (over_size-Fits x) (deliver-Fits x)
  after_check-Fits x (false, status, m) fits =
      Ensures-bind _ _
        (λ after. Ensures-pure (reply_with x status m (some x.service_headers) after) fits)

  checked-Fits : (x : Extracted) → Ensures EchoReply (Echo.checked ext src e x)
  unfolding Echo.checked
  checked-Fits x = Ensures-bind_after _ _ (check_file-Fits x) (after_check-Fits x)

  connected-Fits : (x : Extracted) → Ensures EchoReply (Echo.connected ext src e x)
  unfolding Echo.connected
  connected-Fits x =
      Ensures-bind_after _ _
        (returning_http_message_with_file-Fits e.method_name m_known ext x.file)
        (λ m h. Ensures-pure (reply_with x 200 m (some x.service_headers) []) h)

  process_file-Fits : (x : Extracted) → Ensures EchoReply (Echo.process_file ext src e x)
  unfolding Echo.process_file
  process_file-Fits x =
      Ensures-bind _ _
        (λ r. Ensures-if (r.method == "CONNECT") _ _ (connected-Fits x) (checked-Fits x))

  extract_file-Fits : (x : Extracted) → Ensures EchoReply (Echo.extract_file ext src e x)
  unfolding Echo.extract_file
  extract_file-Fits x =
      Ensures-bind _ _
        (λ copied. Ensures-maybe copied _ _ (Ensures-pure _ nothing) (λ r. process_file-Fits _))

  pub echo_processing-Fits :
      (partial : Bool) (icap_header : Header)
      → Ensures (ReplyFits e.method_name) (Echo.processing ext src e partial icap_header)
  unfolding Echo.processing
  echo_processing-Fits partial icap_header =
      Ensures-bind _ _
        (λ before. Ensures-if partial _ _ (Ensures-pure _ nothing) (extract_file-Fits _))
