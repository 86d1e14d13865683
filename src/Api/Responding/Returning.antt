-- ===== src/Api/Responding/Returning.antt =====
-- A REQMOD or RESPMOD request is answered: no step of the handling panics.
pub mod Steps
use icapegclh.Prelude.{
  ℕ, String, Bool, true, false, ◌≡◌, ◌≢◌, refl, ◌∙◌, sym, ap, Option, none, some, ◌==◌, arith,
  Bool-cases, inl, inr,
}
use icapegclh.Prelude.Outcome.{Outcome, done, panicked}
use icapegclh.Consts.{icap_mode_req, icap_mode_resp, block_page_path}
use icapegclh.FormPart.{Bytes}
use icapegclh.Http.{HttpMsg, new_http_msg, Request, Response}
use icapegclh.External.{External, ErrorPage}
use icapegclh.Settings.{Source, read_values_string}
use icapegclh.Exchange.Returns.{Present}
use icapegclh.Service.Reply.{Reply}
use icapegclh.Service.Status.{IsFinal, ok, no_modification, bad_request, time_out, server_error}
use icapegclh.Service.Dispatch.{Configs, Service, get_service, processing}
use icapegclh.Service.Echo.Config.{new_echo_service}
use icapegclh.Service.Hashlookup.Config.{new_hashlookup_service}
use icapegclh.Service.Clamav.Config.{new_clamav_service}
use icapegclh.Service.Returning.{method_of, IsReachable, processing-Done}
use icapegclh.Api.Handler.{Handler, Original, abort}
use icapegclh.Api.Responding
use icapegclh.Api.Responding.{
  or_empty, add_headers, headers_of, with_body, open_messages, use_service, use_result,
  call_service, take_the_rest, answer, after_service, call_mods, resp_and_req_mods,
}
use icapegclh.Api.Responding.Answered.{call_service-IsFinal, call_service-preview, Answered}
use icapegclh.Api.Responding.Rounds.{final_is_not_100, resp_and_req_mods-Answered}
use icapegclh.Api.Responding.Calls.{whole-same}
use Steps.{
  Waiting, Ready, opened, open_messages-done, opened-Ready, returned, take_the_rest-done,
  answer-done,
}
use icapegclh.Exchange.Ensures.{elim-done}

get_service-method_of :
    (configs : Configs) (vendor service_name method_name x_icap_metadata : String)
    (service : Service)
    → get_service configs vendor service_name method_name x_icap_metadata ≡ done (some service)
    → method_of service ≡ method_name
unfolding get_service new_echo_service new_hashlookup_service new_clamav_service
get_service-method_of configs vendor service_name method_name x_icap_metadata service e =
    ground arith

module _ (ext : External) (src : Source) (configs : Configs)
    (template : ext.template_parses block_page_path ≡ true)
    (host : (h : String) × (read_values_string src "app.web_server_host" ≡ done h))
    (endpoint : (h : String) × (read_values_string src "app.web_server_endpoint" ≡ done h))
    (encodes : (p : ErrorPage) → (b : Bytes) × (ext.marshal_page p ≡ some b)) where
  Ready-Present :
      (method : String) (service : Service) (s : Handler)
      → Ready configs method service s
      → Present (method_of service) (new_http_msg s.req.request s.req.response)
  Ready-Present method service s k =
      let m = get_service-method_of configs _ _ method _ service k.got in
      record {
        with_request =
            let (r, e, built) = k.with_request in
            (r, e, λ other. built (sym (ap (λ n. n == icap_mode_resp) m) ∙ other));
        with_response = λ h. k.with_response (sym (ap (λ n. n == icap_mode_req) m) ∙ h);
      }

  -- The handler after a service's reply.
  abbrev after_reply : Reply → HttpMsg → Handler → Handler
  after_reply reply msg s = record s {
    req = record s.req {
      header = reply.icap_header;
      request = msg.request;
      response = msg.response;
    };
    h = add_headers (headers_of reply.service_headers) s.h;
  }

  call_service-reply :
      (method : String) (service : Service) (partial : Bool) (s : Handler) (reply : Reply)
      (msg : HttpMsg)
      → Ready configs method service s
      → processing ext src service partial s.req.header (new_http_msg s.req.request s.req.response)
        ≡ done (reply, msg)
      → call_service ext src configs partial s ≡ done (reply, after_reply reply msg s)
  unfolding call_service use_service use_result
  call_service-reply method service partial s reply msg k e =
      let m = k.method_name in let g = k.got in ground (arith, m, g, e)

  -- A service that is reached replies, and the messages stay.
  call_service-done :
      (method : String) (service : Service) (partial : Bool) (s : Handler)
      → IsReachable ext service
      → Ready configs method service s
      → (reply : Reply) × (s' : Handler) × (call_service ext src configs partial s
          ≡ done (reply, s'))
        × Ready configs method service s'
  call_service-done method service partial s reachable k =
      let m = get_service-method_of configs _ _ method _ service k.got in
      let d =
        (processing-Done ext src template host endpoint encodes service partial s.req.header
            reachable).run
          _ (Ready-Present method service s k) in
      (
        d.value,
        after_reply d.value d.after s,
        call_service-reply method service partial s d.value d.after k d.returned,
        record {
          method_name = k.method_name;
          req_method = k.req_method;
          with_request =
              let (r, e, built) = d.kept.with_request in
              (r, e, λ other. built (ap (λ n. n == icap_mode_resp) m ∙ other));
          with_original = k.with_original;
          with_response = λ h. d.kept.with_response (ap (λ n. n == icap_mode_req) m ∙ h);
          got = k.got;
        },
      )

  after_service-final :
      (method : String) (service : Service) (rest : Bytes) (reply : Reply)
      (again : Handler → Outcome (Unit {0} × Handler)) (s : Handler)
      → Ready configs method service s
      → IsFinal reply.status
      → after_service ext src configs again rest reply s ≢ panicked
  unfolding after_service
  after_service-final method service rest reply again s k final =
      let n = final_is_not_100 reply.status final in
      let a = answer-done ext src configs method service reply s k in λ e. ground (arith, n, a, e)

  Ready-Waiting :
      (method : String) (service : Service) (s : Handler)
      → Ready configs method service s
      → Waiting method s
  Ready-Waiting method service s k = record {
    method_name = k.method_name;
    req_method = k.req_method;
    with_request = λ other. let (r, e, built) = k.with_request in (r, e, built other);
    with_original = k.with_original;
    with_response = k.with_response;
  }

  -- A round with the whole body.
  whole_round :
      (method : String) (service : Service) (rest : Bytes) (s : Handler)
      → IsReachable ext service
      → Waiting method s
      → get_service configs s.vendor s.service_name method s.x_icap_metadata ≡ done (some service)
      → (s' : Handler) × (resp_and_req_mods ext src configs 1 rest false s ≡ done (tt, s'))
  unfolding call_mods
  whole_round method service rest s reachable k got =
      let k1 = opened-Ready configs method service s k got in
      let (reply, s2, called, k2) =
        call_service-done method service false (opened s) reachable k1 in
      let final = call_service-IsFinal ext src configs (opened s) s2 reply called in
      let (s', ended) = returned _ (after_service-final method service rest reply _ s2 k2 final) in
      (s', elim-done _ _ (open_messages-done method s k) (elim-done _ _ called ended))

  shadow_round :
      (rest : Bytes) (reply : Reply) (again : Handler → Outcome (Unit {0} × Handler)) (s : Handler)
      → s.is_shadow_service_enabled ≡ true
      → after_service ext src configs again rest reply s ≡ done (tt, s)
  unfolding after_service
  shadow_round rest reply again s on = ground (arith, on)

  next_round :
      (rest : Bytes) (reply : Reply) (again : Handler → Outcome (Unit {0} × Handler))
      (s t s' : Handler)
      → s.is_shadow_service_enabled ≡ false
      → reply.status ≡ 100
      → take_the_rest ext src configs rest s ≡ done (tt, t)
      → again t ≡ done (tt, s')
      → after_service ext src configs again rest reply s ≡ done (tt, s')
  unfolding after_service
  next_round rest reply again s t s' off is_100 taken ended =
      let rounds = elim-done (take_the_rest ext src configs rest s) (λ _. again) taken ended in
      ground (arith, off, is_100, rounds)

  after_preview-done :
      (method : String) (service : Service) (rest : Bytes) (reply : Reply) (s : Handler)
      → IsReachable ext service
      → Ready configs method service s
      → reply.status ≡ 100
      → (s' : Handler) × (after_service ext src configs
            (resp_and_req_mods ext src configs 1 rest false)
            rest
            reply
            s
          ≡ done (tt, s'))
  after_preview-done method service rest reply s reachable k is_100 =
      elim (Bool-cases s.is_shadow_service_enabled) [
        | inl on ↦ (s, shadow_round rest reply _ s on)
        | inr off ↦
            let (s3, taken, k3) = take_the_rest-done ext src configs method rest s service k in
            let (s', ended) =
              whole_round method service rest s3 reachable (Ready-Waiting method service s3 k3)
                k3.got in
            (s', next_round rest reply _ s s3 s' off is_100 taken ended)
      ]

  -- Where the default block page parses, the host and the endpoint of its web server can be read, a
  -- page can be encoded, the handler's service is there and reachable, and the messages of the method
  -- are there (outside RESPMOD a request that is not the zero request, in REQMOD its copy, and outside
  -- REQMOD the response), the handling of a whole body or of a preview returns, and if shadow mode is
  -- off, it has written one response head, which is 204 only where the client allows it.
  pub resp_and_req_mods-returns :
      (method : String) (service : Service) (rest : Bytes) (partial : Bool) (s : Handler)
      → IsReachable ext service
      → Waiting method s
      → get_service configs s.vendor s.service_name method s.x_icap_metadata ≡ done (some service)
      → (s' : Handler) × (resp_and_req_mods ext src configs 2 rest partial s ≡ done (tt, s'))
        × (s.is_shadow_service_enabled ≡ false → Answered s s')
  resp_and_req_mods-returns method service rest partial s reachable k got =
      let (s', e) = returns partial in
      (s', e, λ off. resp_and_req_mods-Answered ext src configs rest partial s s' off e)
    where
      returns :
          (partial : Bool)
          → (s' : Handler) × (resp_and_req_mods ext src configs 2 rest partial s ≡ done (tt, s'))
      returns true =
          unfold call_mods in
          let k1 = opened-Ready configs method service s k got in
          let (reply, s2, called, k2) =
            call_service-done method service true (opened s) reachable k1 in
          let is_100 = call_service-preview ext src configs (opened s) s2 reply called in
          let (s', ended) = after_preview-done method service rest reply s2 reachable k2 is_100 in
          (s', elim-done _ _ (open_messages-done method s k) (elim-done _ _ called ended))
      returns false =
          let (s', e) = whole_round method service rest s reachable k got in
          (s', whole-same ext src configs rest abort abort 1 s ∙ e)
