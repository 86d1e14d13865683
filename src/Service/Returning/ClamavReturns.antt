-- ===== src/Service/Returning/ClamavReturns.antt =====
-- Clamav's `processing` returns: the daemon's stream is to close in time.
use icapegclh.Prelude.{ℕ, String, Bool, true, false, ◌≡◌, ◌≢◌, refl, some}
use icapegclh.Prelude.Outcome.{done}
use icapegclh.Consts.{block_page_path}
use icapegclh.FormPart.{Bytes}
use icapegclh.Header.{Header}
use icapegclh.Http.{Message}
use icapegclh.External.{
  External, ErrorPage, ScanResult, ScanStream, scan_error, scan_closed, scan_open,
}
use icapegclh.Settings.{Source, read_values_string}
use icapegclh.Exchange.Returns.{
  Returns, Anything, Returns-pure, Returns-if, Returns-either, Returns-bind, Returns-bind_after,
  Returns-then, Returns-made, Returns-maybe, Returns-maybe_known, Returns-current,
  Returns-the_request, Returns-the_response, Returns-put_response, returns_rules,
}
use icapegclh.GeneralFunc.Returning.{
  Typed, CopyTyped-some, log-Returns, returning_with_file-Returns, set_message_body-Returns,
  if_status_is_204_with_file-Returns, if_icap_status_is_204-Returns, copying-Returns,
}
use icapegclh.GeneralFunc.Returning.Pages.{
  gen_html_page-Returns, req_mod_err_page-Returns, check_the_extension-Returns,
  if_max_file_size_exc-Returns,
}
use icapegclh.Service.Reply.{Extracted}
use icapegclh.Service.Clamav
use icapegclh.Service.Clamav.Config.{Clamav}

module _ (ext : External) (src : Source) (template : ext.template_parses block_page_path ≡ true)
    (host : (h : String) × (read_values_string src "app.web_server_host" ≡ done h))
    (endpoint : (h : String) × (read_values_string src "app.web_server_endpoint" ≡ done h))
    (encodes : (p : ErrorPage) → (b : Bytes) × (ext.marshal_page p ≡ some b)) (c : Clamav)
    (reachable : (file : Bytes) → ext.scan_stream c.socket_path file ≢ scan_open) where
  abbrev method : String
  method = c.method_name

  extension_of-Returns :
      (file : Bytes) → Returns method Anything (Clamav.extension_of ext src c file)
  unfolding Clamav.extension_of
  extension_of-Returns file =
      Returns-if method _ _ _ (λ _. search returns_rules)
        (λ h. Returns-bind method _ _ (Returns-the_response method h) (λ r. search returns_rules))

  check_file-Returns :
      (x : Extracted)
      → Typed method x.req_content_type
      → Returns method Anything (Clamav.check_file ext src c x)
  unfolding Clamav.check_file
  check_file-Returns x typed = Returns-bind method _ _ (extension_of-Returns x.file) (λ name.
      Returns-bind method _ _ (Returns-the_request method)
        (λ r. check_the_extension-Returns ext src template host endpoint encodes _ _ _ _ _ _ typed))

  over_size-Returns : (x : Extracted) → Returns method Anything (Clamav.over_size ext src c x)
  unfolding Clamav.over_size
  over_size-Returns x =
      Returns-bind_after method _ _
        (if_max_file_size_exc-Returns ext src method template host endpoint encodes _ _ _ _ _ _)
        (λ a h. Returns-made method _ _ _ h (λ file.
          Returns-bind method _ _ (if_status_is_204_with_file-Returns ext src method _ _ _ _)
            (λ prepared. Returns-maybe method _ _ _ (Returns-pure method _ tt) (λ p.
              Returns-bind method _ _ (set_message_body-Returns ext src method _ _) (λ m.
                Returns-bind method _ _ (log-Returns ext src method)
                  (λ after. Returns-pure method _ tt))))))

  deliver-Returns :
      (x : Extracted)
      → Typed method x.req_content_type
      → Returns method Anything (Clamav.deliver ext src c x)
  unfolding Clamav.deliver
  deliver-Returns x typed = Returns-bind method _ _ (Returns-current method) (λ msg.
      Returns-bind method _ _ (if_icap_status_is_204-Returns ext src method _ _ _ _ _ typed)
        (λ prepared. Returns-maybe method _ _ _ (Returns-pure method _ tt) (λ p.
          Returns-bind method _ _ (set_message_body-Returns ext src method _ _) (λ m.
            Returns-bind method _ _ (log-Returns ext src method)
              (λ after. Returns-pure method _ tt)))))

  block-Returns :
      (x : Extracted) (result : ScanResult)
      → Returns method Anything (Clamav.block ext src c x result)
  unfolding Clamav.block
  block-Returns x result =
      Returns-if method _ _ _
        (λ _. Returns-bind method _ _ (Returns-the_request method) (λ r.
          Returns-bind method _ _ (gen_html_page-Returns ext src method template _ _ _ _ _ _ _)
            (λ page. Returns-then method _ _ (Returns-put_response method _) (
              Returns-bind method _ _ (log-Returns ext src method)
                (λ after. Returns-pure method _ tt)))))
        (λ other.
          Returns-bind_after method _ _
            (req_mod_err_page-Returns ext src method template host endpoint encodes _ _ _ _ other)
            (λ made h. Returns-made method _ _ _ h (λ r.
              Returns-bind method _ _ (log-Returns ext src method)
                (λ after. Returns-pure method _ tt))))

  after_stream-Returns :
      (x : Extracted) (stream : ScanStream)
      → stream ≢ scan_open
      → Typed method x.req_content_type
      → Returns method Anything (Clamav.after_stream ext src c x stream)
  unfolding Clamav.after_stream Clamav.after_scan
  after_stream-Returns x (scan_error err) closed typed = Returns-pure method _ tt
  after_stream-Returns x (scan_closed results) closed typed =
      Returns-either method _ _ _ (block-Returns x _) (deliver-Returns x typed)
  after_stream-Returns x scan_open closed typed = absurd (closed refl)

  scan-Returns :
      (x : Extracted)
      → Typed method x.req_content_type
      → Returns method Anything (Clamav.scan ext src c x)
  unfolding Clamav.scan
  scan-Returns x typed = after_stream-Returns x _ (reachable x.file) typed

  after_check-Returns :
      (x : Extracted) (checked : Bool × ℕ × Message)
      → Typed method x.req_content_type
      → Returns method Anything (Clamav.after_check ext src c x checked)
  unfolding Clamav.after_check
  after_check-Returns x (true, status, m) typed =
      Returns-either method _ _ _ (over_size-Returns x) (scan-Returns x typed)
  after_check-Returns x (false, status, m) typed =
      Returns-bind method _ _ (log-Returns ext src method) (λ after. Returns-pure method _ tt)

  checked-Returns :
      (x : Extracted)
      → Typed method x.req_content_type
      → Returns method Anything (Clamav.checked ext src c x)
  unfolding Clamav.checked
  checked-Returns x typed =
      Returns-bind method _ _ (check_file-Returns x typed) (λ c. after_check-Returns x c typed)

  connected-Returns : (x : Extracted) → Returns method Anything (Clamav.connected ext src c x)
  unfolding Clamav.connected
  connected-Returns x =
      Returns-bind method _ _ (returning_with_file-Returns ext src method _)
        (λ m. Returns-pure method _ tt)

  is_connect-Returns : Returns method Anything (Clamav.is_connect ext src c)
  unfolding Clamav.is_connect
  is_connect-Returns =
      Returns-either method _ _ _
        (Returns-bind method _ _ (Returns-the_request method) (λ r. Returns-pure method _ tt))
        (Returns-pure method _ tt)

  process_file-Returns :
      (x : Extracted)
      → Typed method x.req_content_type
      → Returns method Anything (Clamav.process_file ext src c x)
  unfolding Clamav.process_file
  process_file-Returns x typed =
      Returns-bind method _ _ is_connect-Returns
        (λ b. Returns-either method _ _ _ (connected-Returns x) (checked-Returns x typed))

  extract_file-Returns : (x : Extracted) → Returns method Anything (Clamav.extract_file ext src c x)
  unfolding Clamav.extract_file
  extract_file-Returns x =
      Returns-bind_after method _ _ (copying-Returns ext src method) (λ copied h.
        Returns-maybe_known method _ _ _ (Returns-pure method _ tt)
          (λ a e. process_file-Returns _ (CopyTyped-some method copied a h e)))

  is_byte_range-Returns : Returns method Anything (Clamav.is_byte_range ext src c)
  unfolding Clamav.is_byte_range
  is_byte_range-Returns =
      Returns-bind method _ _ (Returns-current method) (λ msg. Returns-pure method _ tt)

  byte_range-Returns :
      (x : Extracted) → Returns method Anything (Clamav.byte_range_reply ext src c x)
  unfolding Clamav.byte_range_reply
  byte_range-Returns x =
      Returns-bind method _ _ (Returns-current method) (λ msg. Returns-pure method _ tt)

  pub clamav_processing-Returns :
      (partial : Bool) (icap_header : Header)
      → Returns method Anything (Clamav.processing ext src c partial icap_header)
  unfolding Clamav.processing
  clamav_processing-Returns partial icap_header =
      Returns-bind method _ _ (log-Returns ext src method) (λ before.
        Returns-bind method _ _ is_byte_range-Returns (λ b.
          Returns-either method _ _ _ (Returns-pure method _ tt)
            (Returns-either method _ _ _ (byte_range-Returns _) (extract_file-Returns _))))
