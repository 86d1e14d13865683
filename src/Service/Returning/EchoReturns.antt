-- ===== src/Service/Returning/EchoReturns.antt =====
-- Echo's `processing` returns.
use icapegclh.Prelude.{ℕ, String, Bool, true, false, ◌≡◌, some}
use icapegclh.Prelude.Outcome.{done}
use icapegclh.Consts.{block_page_path}
use icapegclh.FormPart.{Bytes}
use icapegclh.Header.{Header}
use icapegclh.Http.{Message}
use icapegclh.External.{External, ErrorPage}
use icapegclh.Settings.{Source, read_values_string}
use icapegclh.Exchange.Returns.{
  Returns, Anything, Returns-pure, Returns-if, Returns-either, Returns-bind, Returns-bind_after,
  Returns-made, Returns-maybe, Returns-maybe_known, Returns-the_request, Returns-the_response,
  returns_rules,
}
use icapegclh.GeneralFunc.Returning.{
  Typed, CopyTyped-some, preparing-Returns, log-Returns, returning_with_file-Returns,
  set_message_body-Returns, if_status_is_204_with_file-Returns, copying-Returns,
}
use icapegclh.GeneralFunc.Returning.Pages.{
  check_the_extension-Returns, if_max_file_size_exc-Returns,
}
use icapegclh.Service.Reply.{Extracted}
use icapegclh.Service.Echo
use icapegclh.Service.Echo.Config.{Echo}

module _ (ext : External) (src : Source) (template : ext.template_parses block_page_path ≡ true)
    (host : (h : String) × (read_values_string src "app.web_server_host" ≡ done h))
    (endpoint : (h : String) × (read_values_string src "app.web_server_endpoint" ≡ done h))
    (encodes : (p : ErrorPage) → (b : Bytes) × (ext.marshal_page p ≡ some b)) (e : Echo) where
  abbrev method : String
  method = e.method_name

  extension_of-Returns : (file : Bytes) → Returns method Anything (Echo.extension_of ext src e file)
  unfolding Echo.extension_of
  extension_of-Returns file =
      Returns-if method _ _ _ (λ _. search returns_rules)
        (λ h. Returns-bind method _ _ (Returns-the_response method h) (λ r. search returns_rules))

  check_file-Returns :
      (x : Extracted)
      → Typed method x.req_content_type
      → Returns method Anything (Echo.check_file ext src e x)
  unfolding Echo.check_file
  check_file-Returns x typed = Returns-bind method _ _ (extension_of-Returns x.file) (λ name.
      Returns-bind method _ _ (Returns-the_request method)
        (λ r. check_the_extension-Returns ext src template host endpoint encodes _ _ _ _ _ _ typed))

  over_size-Returns : (x : Extracted) → Returns method Anything (Echo.over_size ext src e x)
  unfolding Echo.over_size
  over_size-Returns x =
      Returns-bind_after method _ _
        (if_max_file_size_exc-Returns ext src method template host endpoint encodes _ _ _ _ _ _)
        (λ a h. Returns-made method _ _ _ h (λ file.
          Returns-bind method _ _ (if_status_is_204_with_file-Returns ext src method _ _ _ _)
            (λ prepared. Returns-maybe method _ _ _ (Returns-pure method _ tt) (λ p.
              Returns-bind method _ _ (set_message_body-Returns ext src method _ _) (λ m.
                Returns-bind method _ _ (log-Returns ext src method)
                  (λ after. Returns-pure method _ tt))))))

  deliver-Returns :
      (x : Extracted)
      → Typed method x.req_content_type
      → Returns method Anything (Echo.deliver ext src e x)
  unfolding Echo.deliver
  deliver-Returns x typed =
      Returns-bind method _ _ (preparing-Returns ext src method _ _ typed) (λ scanned.
        Returns-bind method _ _ (log-Returns ext src method) (λ after.
          Returns-bind method _ _ (returning_with_file-Returns ext src method _)
            (λ m. Returns-pure method _ tt)))

  after_check-Returns :
      (x : Extracted) (checked : Bool × ℕ × Message)
      → Typed method x.req_content_type
      → Returns method Anything (Echo.after_check ext src e x checked)
  unfolding Echo.after_check
  after_check-Returns x (true, status, m) typed =
      Returns-either method _ _ _ (over_size-Returns x) (deliver-Returns x typed)
  after_check-Returns x (false, status, m) typed =
      Returns-bind method _ _ (log-Returns ext src method) (λ after. Returns-pure method _ tt)

  checked-Returns :
      (x : Extracted)
      → Typed method x.req_content_type
      → Returns method Anything (Echo.checked ext src e x)
  unfolding Echo.checked
  checked-Returns x typed =
      Returns-bind method _ _ (check_file-Returns x typed) (λ c. after_check-Returns x c typed)

  connected-Returns : (x : Extracted) → Returns method Anything (Echo.connected ext src e x)
  unfolding Echo.connected
  connected-Returns x =
      Returns-bind method _ _ (returning_with_file-Returns ext src method _)
        (λ m. Returns-pure method _ tt)

  process_file-Returns :
      (x : Extracted)
      → Typed method x.req_content_type
      → Returns method Anything (Echo.process_file ext src e x)
  unfolding Echo.process_file
  process_file-Returns x typed =
      Returns-bind method _ _ (Returns-the_request method)
        (λ r. Returns-either method _ _ _ (connected-Returns x) (checked-Returns x typed))

  extract_file-Returns : (x : Extracted) → Returns method Anything (Echo.extract_file ext src e x)
  unfolding Echo.extract_file
  extract_file-Returns x =
      Returns-bind_after method _ _ (copying-Returns ext src method) (λ copied h.
        Returns-maybe_known method _ _ _ (Returns-pure method _ tt)
          (λ a e. process_file-Returns _ (CopyTyped-some method copied a h e)))

  pub echo_processing-Returns :
      (partial : Bool) (icap_header : Header)
      → Returns method Anything (Echo.processing ext src e partial icap_header)
  unfolding Echo.processing
  echo_processing-Returns partial icap_header =
      Returns-bind method _ _ (log-Returns ext src method)
        (λ before. Returns-either method _ _ _ (Returns-pure method _ tt) (extract_file-Returns _))
