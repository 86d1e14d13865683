-- ===== src/Service/Returning/HashlookupReturns.antt =====
-- Hashlookup's `processing` returns: `http.NewRequest` is to take the lookup's URL.
use icapegclh.Prelude.{
  ℕ, String, ◌<>◌, Bool, true, false, ◌≡◌, ◌≢◌, refl, ◌⊎◌, inl, inr, Option, none, some,
}
use icapegclh.Prelude.Outcome.{done}
use icapegclh.Consts.{block_page_path}
use icapegclh.FormPart.{Bytes}
use icapegclh.Header.{Header, lookup}
use icapegclh.Http.{Message}
use icapegclh.External.{External, ErrorPage, Data, Answer, bad_url, call_error, answered}
use icapegclh.Settings.{Source, read_values_string}
use icapegclh.Exchange.Returns.{
  Returns, Anything, Returns-pure, Returns-lift, Returns-if, Returns-either, Returns-bind,
  Returns-bind_after, Returns-then, Returns-made, Returns-maybe, Returns-maybe_known,
  Returns-current, Returns-the_request, Returns-the_response, Returns-put_response, returns_rules,
}
use icapegclh.GeneralFunc.Returning.{
  Typed, CopyTyped-some, preparing-Returns, log-Returns, returning_with_file-Returns,
  set_message_body-Returns, if_status_is_204_with_file-Returns, copying-Returns,
}
use icapegclh.GeneralFunc.Returning.Pages.{
  gen_html_page-Returns, req_mod_err_page-Returns, check_the_extension-Returns,
  if_max_file_size_exc-Returns,
}
use icapegclh.Service.Reply.{Extracted}
use icapegclh.Service.Hashlookup
use icapegclh.Service.Hashlookup.{is_known}
use icapegclh.Service.Hashlookup.Config.{Hashlookup}

Answer-cases :
    (a : Answer)
    → (a ≡ bad_url)
      ⊎ (((err : String) × (a ≡ call_error err)) ⊎ ((data_map : Data) × (a ≡ answered data_map)))
Answer-cases bad_url = inl refl
Answer-cases (call_error err) = inr (inl (err, refl))
Answer-cases (answered data_map) = inr (inr (data_map, refl))

module _ (ext : External) (src : Source) (template : ext.template_parses block_page_path ≡ true)
    (host : (h : String) × (read_values_string src "app.web_server_host" ≡ done h))
    (endpoint : (h : String) × (read_values_string src "app.web_server_endpoint" ≡ done h))
    (encodes : (p : ErrorPage) → (b : Bytes) × (ext.marshal_page p ≡ some b)) (l : Hashlookup)
    (reachable : (file : Bytes)
      → ext.look_up (l.scan_url <> ext.sha256_hex file) l.timeout ≢ bad_url) where
  abbrev method : String
  method = l.method_name

  extension_of-Returns :
      (file : Bytes) → Returns method Anything (Hashlookup.extension_of ext src l file)
  unfolding Hashlookup.extension_of
  extension_of-Returns file =
      Returns-if method _ _ _ (λ _. search returns_rules)
        (λ h. Returns-bind method _ _ (Returns-the_response method h) (λ r. search returns_rules))

  check_file-Returns :
      (x : Extracted)
      → Typed method x.req_content_type
      → Returns method Anything (Hashlookup.check_file ext src l x)
  unfolding Hashlookup.check_file
  check_file-Returns x typed = Returns-bind method _ _ (extension_of-Returns x.file) (λ name.
      Returns-bind method _ _ (Returns-the_request method)
        (λ r. check_the_extension-Returns ext src template host endpoint encodes _ _ _ _ _ _ typed))

  over_size-Returns : (x : Extracted) → Returns method Anything (Hashlookup.over_size ext src l x)
  unfolding Hashlookup.over_size
  over_size-Returns x =
      Returns-bind_after method _ _
        (if_max_file_size_exc-Returns ext src method template host endpoint encodes _ _ _ _ _ _)
        (λ a h. Returns-made method _ _ _ h (λ file.
          Returns-bind method _ _ (if_status_is_204_with_file-Returns ext src method _ _ _ _)
            (λ prepared. Returns-maybe method _ _ _ (Returns-pure method _ tt) (λ p.
              Returns-bind method _ _ (set_message_body-Returns ext src method _ _) (λ m.
                Returns-bind method _ _ (log-Returns ext src method)
                  (λ after. Returns-pure method _ tt))))))

  deliver-Returns :
      (x : Extracted)
      → Typed method x.req_content_type
      → Returns method Anything (Hashlookup.deliver ext src l x)
  unfolding Hashlookup.deliver
  deliver-Returns x typed = Returns-bind method _ _ (log-Returns ext src method) (λ after.
      Returns-bind method _ _ (preparing-Returns ext src method _ _ typed) (λ scanned.
        Returns-bind method _ _ (returning_with_file-Returns ext src method _)
          (λ m. Returns-pure method _ tt)))

  block-Returns : (x : Extracted) → Returns method Anything (Hashlookup.block ext src l x)
  unfolding Hashlookup.block
  block-Returns x =
      Returns-if method _ _ _
        (λ _. Returns-bind method _ _ (Returns-the_request method) (λ r.
          Returns-bind method _ _ (gen_html_page-Returns ext src method template _ _ _ _ _ _ _)
            (λ page. Returns-then method _ _ (Returns-put_response method _) (
              Returns-bind method _ _ (log-Returns ext src method)
                (λ after. Returns-pure method _ tt)))))
        (λ other.
          Returns-bind_after method _ _
            (req_mod_err_page-Returns ext src method template host endpoint encodes _ _ _ _ other)
            (λ made h. Returns-made method _ _ _ h (λ r.
              Returns-bind method _ _ (log-Returns ext src method)
                (λ after. Returns-pure method _ tt))))

  after_scan-Returns :
      (x : Extracted) (is_mal : Bool) (err : Option String)
      → Typed method x.req_content_type
      → Returns method Anything (Hashlookup.after_scan ext src l x is_mal err)
  unfolding Hashlookup.after_scan
  after_scan-Returns x is_mal none typed =
      Returns-either method _ _ _ (block-Returns x) (deliver-Returns x typed)
  after_scan-Returns x is_mal (some err) typed =
      Returns-either method _ _ _
        (Returns-either method _ _ _ (block-Returns x) (deliver-Returns x typed))
        (Returns-pure method _ tt)

  send-done :
      (file : Bytes)
      → (r : Bool × Option String) × (Hashlookup.send_file_to_scan ext src l file ≡ done r)
  unfolding Hashlookup.send_file_to_scan
  send-done file = elim (Answer-cases (ext.look_up (l.scan_url <> ext.sha256_hex file) l.timeout)) [
    | inl refused ↦ absurd (reachable file refused)
    | inr (inl (err, e)) ↦ ((false, some err), rw (e, Hashlookup.send_file_to_scan) refl)
    | inr (inr (data_map, e)) ↦ (
      (is_known (ext.sprint (lookup "KnownMalicious" data_map)), none),
      rw (e, Hashlookup.send_file_to_scan) refl,
    )
  ]

  scan-Returns :
      (x : Extracted)
      → Typed method x.req_content_type
      → Returns method Anything (Hashlookup.scan ext src l x)
  unfolding Hashlookup.scan
  scan-Returns x typed =
      let (r, e) = send-done x.file in
      Returns-bind method _ _ (Returns-lift method _ r e tt) (λ a. after_scan-Returns x _ _ typed)

  after_check-Returns :
      (x : Extracted) (checked : Bool × ℕ × Message)
      → Typed method x.req_content_type
      → Returns method Anything (Hashlookup.after_check ext src l x checked)
  unfolding Hashlookup.after_check
  after_check-Returns x (true, status, m) typed =
      Returns-either method _ _ _ (over_size-Returns x) (scan-Returns x typed)
  after_check-Returns x (false, status, m) typed =
      Returns-bind method _ _ (log-Returns ext src method) (λ after. Returns-pure method _ tt)

  checked-Returns :
      (x : Extracted)
      → Typed method x.req_content_type
      → Returns method Anything (Hashlookup.checked ext src l x)
  unfolding Hashlookup.checked
  checked-Returns x typed =
      Returns-bind method _ _ (check_file-Returns x typed) (λ c. after_check-Returns x c typed)

  connected-Returns : (x : Extracted) → Returns method Anything (Hashlookup.connected ext src l x)
  unfolding Hashlookup.connected
  connected-Returns x =
      Returns-bind method _ _ (returning_with_file-Returns ext src method _)
        (λ m. Returns-pure method _ tt)

  is_connect-Returns : Returns method Anything (Hashlookup.is_connect ext src l)
  unfolding Hashlookup.is_connect
  is_connect-Returns =
      Returns-either method _ _ _
        (Returns-bind method _ _ (Returns-the_request method) (λ r. Returns-pure method _ tt))
        (Returns-pure method _ tt)

  process_file-Returns :
      (x : Extracted)
      → Typed method x.req_content_type
      → Returns method Anything (Hashlookup.process_file ext src l x)
  unfolding Hashlookup.process_file
  process_file-Returns x typed =
      Returns-bind method _ _ is_connect-Returns
        (λ b. Returns-either method _ _ _ (connected-Returns x) (checked-Returns x typed))

  extract_file-Returns :
      (x : Extracted) → Returns method Anything (Hashlookup.extract_file ext src l x)
  unfolding Hashlookup.extract_file
  extract_file-Returns x =
      Returns-bind_after method _ _ (copying-Returns ext src method) (λ copied h.
        Returns-maybe_known method _ _ _ (Returns-pure method _ tt)
          (λ a e. process_file-Returns _ (CopyTyped-some method copied a h e)))

  is_byte_range-Returns : Returns method Anything (Hashlookup.is_byte_range ext src l)
  unfolding Hashlookup.is_byte_range
  is_byte_range-Returns =
      Returns-bind method _ _ (Returns-current method) (λ msg. Returns-pure method _ tt)

  byte_range-Returns :
      (x : Extracted) → Returns method Anything (Hashlookup.byte_range_reply ext src l x)
  unfolding Hashlookup.byte_range_reply
  byte_range-Returns x =
      Returns-bind method _ _ (Returns-current method) (λ msg. Returns-pure method _ tt)

  pub hashlookup_processing-Returns :
      (partial : Bool) (icap_header : Header)
      → Returns method Anything (Hashlookup.processing ext src l partial icap_header)
  unfolding Hashlookup.processing
  hashlookup_processing-Returns partial icap_header =
      Returns-bind method _ _ (log-Returns ext src method) (λ before.
        Returns-bind method _ _ is_byte_range-Returns (λ b.
          Returns-either method _ _ _ (Returns-pure method _ tt)
            (Returns-either method _ _ _ (byte_range-Returns _) (extract_file-Returns _))))
