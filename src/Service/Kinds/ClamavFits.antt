-- ===== src/Service/Kinds/ClamavFits.antt =====
-- The message in Clamav's reply.
use icapegclh.Prelude.{ℕ, Bool, true, false, inl, inr, refl, some, none, [], ◌==◌}
use icapegclh.Header.{Header}
use icapegclh.Http.{Message, whole_message}
use icapegclh.External.{External, ScanStream, scan_error, scan_closed, scan_open, ScanResult}
use icapegclh.Settings.{Source}
use icapegclh.Exchange.Ensures.{
  Ensures, Ensures-pure, Ensures-abort, Ensures-if, Ensures-if_known, Ensures-then, Ensures-bind,
  Ensures-bind_after, Ensures-maybe,
}
use icapegclh.GeneralFunc.Kinds.{
  nothing, a_request, a_response, not_resp, is_method, if_icap_status_is_204-Fits, IsMod, CheckFits,
  Ensures-made, set_message_body-Fits, returning_http_message_with_file-Fits,
  if_status_is_204_with_file-Fits, if_max_file_size_exc-Fits, check_the_extension-Fits,
}
use icapegclh.Service.Reply.{Reply, Extracted, reply_with}
use icapegclh.Service.Clamav
use icapegclh.Service.Clamav.Config.{Clamav}
use icapegclh.Service.Kinds.{ReplyFits, WholeFits, WholeFits-Ensures}

module _ (ext : External) (src : Source) (c : Clamav) (m_known : IsMod c.method_name) where
  abbrev ClamavReply : Reply → Type 0
  ClamavReply = ReplyFits c.method_name

  check_file-Fits :
      (x : Extracted) → Ensures (CheckFits c.method_name) (Clamav.check_file ext src c x)
  unfolding Clamav.check_file
  check_file-Fits x = Ensures-bind _ _ (λ extension.
      Ensures-bind _ _
        (λ r. check_the_extension-Fits c.method_name m_known ext src extension _ _ _ _ _ refl))

  over_size-Fits : (x : Extracted) → Ensures ClamavReply (Clamav.over_size ext src c x)
  unfolding Clamav.over_size
  over_size-Fits x =
      Ensures-bind_after _ _ (if_max_file_size_exc-Fits c.method_name m_known ext src _ _ _ _ _ _)
        (λ (status, page, msg) fits. Ensures-maybe page _ _ Ensures-abort (λ file.
          Ensures-bind_after _ _
            (if_status_is_204_with_file-Fits c.method_name m_known ext status file false
              x.req_content_type msg true fits)
            (λ prepared made.
              Ensures-made prepared _ _ made (Ensures-pure _ nothing) (λ body m fits'.
                Ensures-bind_after _ _ (set_message_body-Fits c.method_name m_known m body fits')
                  (λ m' h.
                    Ensures-bind _ _
                      (λ after. Ensures-pure (reply_with x status m' none after) h))))))

  block-Fits : (x : Extracted) (r : ScanResult) → Ensures ClamavReply (Clamav.block ext src c x r)
  unfolding Clamav.block
  block-Fits x r =
      Ensures-if_known (c.method_name == "RESPMOD") _ _
        (λ e. Ensures-bind _ _ (λ req. Ensures-bind _ _ (λ page. Ensures-then _ _ (
          Ensures-bind _ _
            (λ after. Ensures-pure _ (a_response (is_method c.method_name "RESPMOD" e)))))))
        (λ e. Ensures-bind _ _ (λ made. Ensures-maybe made _ _ (Ensures-pure _ nothing) (λ p.
          Ensures-bind _ _
            (λ after. Ensures-pure _ (a_request (not_resp c.method_name m_known e))))))

  deliver-Fits : (x : Extracted) → Ensures ClamavReply (Clamav.deliver ext src c x)
  unfolding Clamav.deliver
  deliver-Fits x = Ensures-bind _ _ (λ msg.
      Ensures-bind_after _ _
        (if_icap_status_is_204-Fits c.method_name m_known ext x.file false x.req_content_type
          (whole_message msg))
        (λ prepared made. Ensures-made prepared _ _ made (Ensures-pure _ nothing) (λ body m fits.
          Ensures-bind_after _ _ (set_message_body-Fits c.method_name m_known m body fits) (λ m' h.
            Ensures-bind _ _
              (λ after. Ensures-pure (reply_with x 204 m' (some x.service_headers) after) h)))))

  after_scan-Fits :
      (x : Extracted) (r : ScanResult) → Ensures ClamavReply (Clamav.after_scan ext src c x r)
  unfolding Clamav.after_scan
  after_scan-Fits x r = Ensures-if (r.status == "FOUND") _ _ (block-Fits x r) (deliver-Fits x)

  after_stream-Fits :
      (x : Extracted) (r : ScanStream) → Ensures ClamavReply (Clamav.after_stream ext src c x r)
  unfolding Clamav.after_stream Clamav.not_finished
  after_stream-Fits x (scan_error err) = Ensures-pure _ nothing
  after_stream-Fits x (scan_closed results) = after_scan-Fits x _
  after_stream-Fits x scan_open = Ensures-abort

  scan-Fits : (x : Extracted) → Ensures ClamavReply (Clamav.scan ext src c x)
  unfolding Clamav.scan
  scan-Fits x = after_stream-Fits x _

  after_check-Fits :
      (x : Extracted) (checked : Bool × ℕ × Message)
      → CheckFits c.method_name checked
      → Ensures ClamavReply (Clamav.after_check ext src c x checked)
  unfolding Clamav.after_check
  after_check-Fits x (true, status, m) fits =
      Ensures-if (Clamav.is_over_size ext src c x.file) _ _ (over_size-Fits x) (scan-Fits x)
  after_check-Fits x (false, status, m) fits =
      Ensures-bind _ _
        (λ after. Ensures-pure (reply_with x status m (some x.service_headers) after) fits)

  checked-Fits : (x : Extracted) → Ensures ClamavReply (Clamav.checked ext src c x)
  unfolding Clamav.checked
  checked-Fits x = Ensures-bind_after _ _ (check_file-Fits x) (after_check-Fits x)

  connected-Fits : (x : Extracted) → Ensures ClamavReply (Clamav.connected ext src c x)
  unfolding Clamav.connected
  connected-Fits x =
      Ensures-bind_after _ _
        (returning_http_message_with_file-Fits c.method_name m_known ext x.file)
        (λ m h. Ensures-pure (reply_with x 200 m (some x.service_headers) []) h)

  process_file-Fits : (x : Extracted) → Ensures ClamavReply (Clamav.process_file ext src c x)
  unfolding Clamav.process_file
  process_file-Fits x = Ensures-bind _ _ (λ r. Ensures-if r _ _ (connected-Fits x) (checked-Fits x))

  extract_file-Fits : (x : Extracted) → Ensures ClamavReply (Clamav.extract_file ext src c x)
  unfolding Clamav.extract_file
  extract_file-Fits x =
      Ensures-bind _ _
        (λ copied. Ensures-maybe copied _ _ (Ensures-pure _ nothing) (λ r. process_file-Fits _))

  byte_range_reply-WholeFits :
      (x : Extracted) → Ensures (WholeFits c.method_name) (Clamav.byte_range_reply ext src c x)
  unfolding Clamav.byte_range_reply
  byte_range_reply-WholeFits x = Ensures-bind _ _ (λ msg.
      Ensures-pure (reply_with x 204 (whole_message msg) (some x.service_headers) [])
        (inr (msg, refl, refl)))

  pub clamav_processing-WholeFits :
      (partial : Bool) (icap_header : Header)
      → Ensures (WholeFits c.method_name) (Clamav.processing ext src c partial icap_header)
  unfolding Clamav.processing
  clamav_processing-WholeFits true icap_header =
      Ensures-bind _ _ (λ before. Ensures-bind _ _ (λ b. Ensures-pure _ (inl nothing)))
  clamav_processing-WholeFits false icap_header = Ensures-bind _ _ (λ before. Ensures-bind _ _ (λ b.
      Ensures-if b (Clamav.byte_range_reply ext src c _) (Clamav.extract_file ext src c _)
        (byte_range_reply-WholeFits _) (WholeFits-Ensures c.method_name _ (extract_file-Fits _))))
