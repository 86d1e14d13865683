-- ===== src/Service/Returning.antt =====
-- The services return a reply.
pub mod EchoReturns
pub mod ClamavReturns
pub mod HashlookupReturns
use icapegclh.Prelude.{ℕ, String, ◌<>◌, Bool, true, false, ◌≡◌, ◌≢◌, some}
use icapegclh.Prelude.Outcome.{done}
use icapegclh.Consts.{block_page_path}
use icapegclh.FormPart.{Bytes}
use icapegclh.Header.{Header}
use icapegclh.Http.{HttpMsg}
use icapegclh.External.{External, ErrorPage, bad_url, scan_open}
use icapegclh.Settings.{Source, read_values_string}
use icapegclh.Exchange.Returns.{Present, Done, Anything, Returns}
use icapegclh.Service.Reply.{Reply}
use icapegclh.Service.Status.{IsFinal}
use icapegclh.Service.Final.{processing-IsFinal}
use icapegclh.Service.Dispatch.{Service, echo, hashlookup, clamav, processing}
use EchoReturns.{echo_processing-Returns}
use ClamavReturns.{clamav_processing-Returns}
use HashlookupReturns.{hashlookup_processing-Returns}

-- The method a service was made for.
abbrev pub method_of : Service → String
method_of (echo e) = e.method_name
method_of (hashlookup l) = l.method_name
method_of (clamav c) = c.method_name

-- The scanner answers: the lookup's URL is taken by `http.NewRequest`, and the daemon's stream closes
-- within five seconds.
abbrev pub IsReachable : External → Service → Type 0
IsReachable ext (echo e) = Unit {0}
IsReachable ext (hashlookup l) =
    (file : Bytes) → ext.look_up (l.scan_url <> ext.sha256_hex file) l.timeout ≢ bad_url
IsReachable ext (clamav c) = (file : Bytes) → ext.scan_stream c.socket_path file ≢ scan_open

module _ (ext : External) (src : Source) (template : ext.template_parses block_page_path ≡ true)
    (host : (h : String) × (read_values_string src "app.web_server_host" ≡ done h))
    (endpoint : (h : String) × (read_values_string src "app.web_server_endpoint" ≡ done h))
    (encodes : (p : ErrorPage) → (b : Bytes) × (ext.marshal_page p ≡ some b)) where
  pub processing-Done :
      (service : Service) (partial : Bool) (icap_header : Header)
      → IsReachable ext service
      → Returns (method_of service) Anything (processing ext src service partial icap_header)
  unfolding processing
  processing-Done (echo e) partial h reachable =
      echo_processing-Returns ext src template host endpoint encodes e partial h
  processing-Done (hashlookup l) partial h reachable =
      hashlookup_processing-Returns ext src template host endpoint encodes l reachable partial h
  processing-Done (clamav c) partial h reachable =
      clamav_processing-Returns ext src template host endpoint encodes c reachable partial h

  -- Where the default block page parses, the host and the endpoint of its web server can be read, a
  -- page can be encoded, and the scanner answers (the URL of the lookup is taken, the daemon's stream
  -- closes), a service that is given a whole body and a request, which outside RESPMOD is not the zero
  -- request, and outside REQMOD a response too, returns a reply of status 200, 204, 400, 408 or 500, and
  -- these messages are there still.
  pub processing-returns :
      (service : Service) (icap_header : Header) (s : HttpMsg)
      → IsReachable ext service
      → Present (method_of service) s
      → (reply : Reply) × (s' : HttpMsg) × (processing ext src service false icap_header s
          ≡ done (reply, s'))
        × IsFinal reply.status
        × Present (method_of service) s'
  processing-returns service icap_header s reachable present =
      let d = (processing-Done service false icap_header reachable).run s present in
      (
        d.value,
        d.after,
        d.returned,
        processing-IsFinal ext src service icap_header s d.after d.value d.returned,
        d.kept,
      )
