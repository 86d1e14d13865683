-- ===== src/Service/Verdicts.antt =====
-- What the scanning services reply when the scanner has found something.
use mathlib.Core.Path.{sym, subst}
use icapegclh.Prelude.{
  ℕ, Bool, true, false, ◌≡◌, refl, none, some, [], ap, length, ◌==◌, if◌then◌else◌,
}
use icapegclh.Prelude.Int.{ℤ}
use icapegclh.Prelude.Outcome.{Outcome, done, panicked}
use icapegclh.Consts.{block_page_path, err_page_reason_file_is_not_safe}
use icapegclh.FormPart.{Bytes}
use icapegclh.Header.{lookup, remove}
use icapegclh.Http.{HttpMsg, Request, Response, response_message}
use icapegclh.External.{External, ScanResult, scan_open}
use icapegclh.Settings.{Source}
use icapegclh.Exchange.{exchange}
use icapegclh.GeneralFunc.Headers.{log_header, log_http_msg_headers}
use icapegclh.GeneralFunc.Pages.{gen_html_page, err_page_resp}
use icapegclh.GeneralFunc.Returning.Pages.{gen_html_page-done}
use icapegclh.Service.Reply.{Reply, Extracted, reply_with, blocked_response}
use icapegclh.Service.Hashlookup
use icapegclh.Service.Hashlookup.Config.{Hashlookup}
use icapegclh.Service.Hashlookup.{is_known}
use icapegclh.Service.Clamav
use icapegclh.Service.Clamav.Config.{Clamav}
use icapegclh.Service.Clamav.{last_result}

-- The rendered page as the body; without a body, no headers about one either.
unfoldable pub BodyIs : Bool → Outcome Bytes → Response → Type 0
BodyIs true page response = page ≡ done response.body
BodyIs false page response =
    (response.body ≡ [])
    × (lookup "Content-Length" response.header ≡ none)
    × (lookup "Content-Type" response.header ≡ none)

-- A reply 200 with the block page's response: the configured code, and the rendered page or
-- nothing as its body. The message pair holds that response too.
pub record Blocked (status_code : ℤ) (has_body : Bool) (page : Outcome Bytes) (reply : Reply)
    (s' : HttpMsg) : Type 0 where
  pub response : Response
  pub status : reply.status ≡ 200
  pub message : reply.message ≡ response_message response
  pub kept : s'.response ≡ some response
  pub code : response.status_code ≡ status_code
  pub body : BodyIs has_body page response

module _ (ext : External) where
  blocked_response-body :
      (has_body : Bool) (page : Bytes) (code : ℤ) (n : ℕ)
      → let r = blocked_response has_body page (err_page_resp ext code n) in
        (r.status_code ≡ code) × BodyIs has_body (done page) r
  unfolding blocked_response err_page_resp BodyIs lookup remove
  blocked_response-body true page code n = (refl, refl)
  blocked_response-body false page code n = (refl, (refl, refl, refl))

  -- What the services do from the page on: the messages get the response, which is then logged.
  Blocked-by :
      (has_body : Bool) (code : ℤ) (n : ℕ) (page : Outcome Bytes) (file : Bytes) (reply : Reply)
      (s' : HttpMsg)
      → page ≡ done file
      → reply.status ≡ 200
      → reply.message ≡ response_message (blocked_response has_body file (err_page_resp ext code n))
      → s'.response ≡ some (blocked_response has_body file (err_page_resp ext code n))
      → Blocked code has_body page reply s'
  Blocked-by has_body code n page file reply s' e st m k =
      let (c, b) = blocked_response-body has_body file code n in
      record {
        response = _;
        status = st;
        message = m;
        kept = k;
        code = c;
        body =
            subst
              (λ p. BodyIs has_body p (blocked_response has_body file (err_page_resp ext code n)))
              (sym e) b;
      }

  module _ (src : Source) (h : Hashlookup) (x : Extracted) where
    abbrev pub hashlookup_page : Request → Outcome Bytes
    hashlookup_page r =
        gen_html_page ext (Hashlookup.exception_page_path ext src h)
          err_page_reason_file_is_not_safe h.service_name (ext.sha256_hex x.file) r.request_uri
          (Hashlookup.file_size_of ext src h x.file) h.x_icap_metadata

    -- The reply to a file that is not safe.
    pub hashlookup_block-Blocked :
        (r : Request) (resp : Response)
        → h.method_name ≡ "RESPMOD"
        → ext.template_parses block_page_path ≡ true
        → (reply : Reply) × (s' : HttpMsg) × (Hashlookup.block ext src h x
              (record { request = some r; response = some resp })
            ≡ done (reply, s'))
          × Blocked h.case_block_http_response_code h.case_block_http_body
              (hashlookup_page r)
              reply
              s'
    unfolding Hashlookup.block log_http_msg_headers exchange
    hashlookup_block-Blocked r resp m t =
        let (page, made) =
          gen_html_page-done ext (Hashlookup.exception_page_path ext src h)
            err_page_reason_file_is_not_safe h.service_name (ext.sha256_hex x.file) r.request_uri
            (Hashlookup.file_size_of ext src h x.file) h.x_icap_metadata t in
        let blocked =
          blocked_response h.case_block_http_body page
            (err_page_resp ext h.case_block_http_response_code (length page)) in
        (
          reply_with x 200 (response_message blocked) (some x.service_headers)
              (log_header blocked.header),
          record { request = some r; response = some blocked },
          rw (m, made) refl,
          Blocked-by h.case_block_http_body _ _ _ page _ _ made refl refl refl,
        )

  module _ (src : Source) (c : Clamav) (x : Extracted) where
    abbrev pub clamav_page : Request → Outcome Bytes
    clamav_page r =
        gen_html_page ext (Clamav.exception_page_path ext src c) err_page_reason_file_is_not_safe
          c.service_name c.file_hash r.request_uri (Clamav.file_size_of ext src c x.file)
          c.x_icap_metadata

    -- The reply to a file that is not safe.
    pub clamav_block-Blocked :
        (result : ScanResult) (r : Request) (resp : Response)
        → c.method_name ≡ "RESPMOD"
        → ext.template_parses block_page_path ≡ true
        → (reply : Reply) × (s' : HttpMsg) × (Clamav.block ext src c x result
              (record { request = some r; response = some resp })
            ≡ done (reply, s'))
          × Blocked c.case_block_http_response_code c.case_block_http_body (clamav_page r) reply s'
    unfolding Clamav.block log_http_msg_headers exchange
    clamav_block-Blocked result r resp m t =
        let (page, made) =
          gen_html_page-done ext (Clamav.exception_page_path ext src c)
            err_page_reason_file_is_not_safe c.service_name c.file_hash r.request_uri
            (Clamav.file_size_of ext src c x.file) c.x_icap_metadata t in
        let blocked =
          blocked_response c.case_block_http_body page
            (err_page_resp ext c.case_block_http_response_code (length page)) in
        (
          reply_with x 200 (response_message blocked) (some x.service_headers)
              (log_header blocked.header),
          record { request = some r; response = some blocked },
          rw (m, made) refl,
          Blocked-by c.case_block_http_body _ _ _ page _ _ made refl refl refl,
        )

    pub after_scan-found :
        (result : ScanResult) (s : HttpMsg)
        → result.status == "FOUND" ≡ true
        → Clamav.after_scan ext src c x result s ≡ Clamav.block ext src c x result s
    unfolding Clamav.after_scan
    after_scan-found result s k =
        ap (λ b. (if b then Clamav.block ext src c x result else Clamav.deliver ext src c x) s) k

    -- The error whose text is read is nil.
    pub scan-panics :
        (s : HttpMsg)
        → ext.scan_stream c.socket_path x.file ≡ scan_open
        → Clamav.scan ext src c x s ≡ panicked
    unfolding Clamav.scan Clamav.after_stream Clamav.not_finished exchange
    scan-panics s a = rw a refl
