-- ===== src/Api/Responding/Returning/Steps.antt =====
-- The steps of the handling that are around the service do not panic where the messages are there.
use icapegclh.Prelude.{String, true, false, ◌≡◌, ◌≢◌, refl, some, ◌==◌, arith, Bool-cases, inl, inr}
use icapegclh.Prelude.Outcome.{Outcome, done, panicked}
use icapegclh.Consts.{icap_mode_req, icap_mode_resp}
use icapegclh.FormPart.{Bytes}
use icapegclh.Http.{Request, Response}
use icapegclh.External.{External}
use icapegclh.Settings.{Source}
use icapegclh.Exchange.Returns.{IsBuilt}
use icapegclh.GeneralFunc.Returning.{not_resp}
use icapegclh.Service.Reply.{Reply}
use icapegclh.Service.Dispatch.{Configs, Service, get_service}
use icapegclh.Api.Handler.{Handler, Original}
use icapegclh.Api.Responding
use icapegclh.Api.Responding.{
  or_empty, add_headers, headers_of, with_body, open_messages, use_service, use_result,
  call_service, take_the_rest, answer, after_service, resp_and_req_mods,
}

-- A handler whose messages are there: in REQMOD the request and its copy, else the response, and the
-- request outside RESPMOD.
pub record Waiting (method : String) (s : Handler) : Type 0 where
  pub method_name : s.method_name ≡ method
  pub req_method : s.req.method ≡ method
  pub with_request :
      method == icap_mode_resp ≡ false
      → (r : Request) × (s.req.request ≡ some r) × (r.is_zero ≡ false)
  pub with_original : method == icap_mode_req ≡ true → (o : Original) × (s.req.org_request ≡ some o)
  pub with_response : method == icap_mode_req ≡ false → (r : Response) × (s.req.response ≡ some r)

-- The same when the messages have been opened, with the service that the handler asks for.
pub record Ready (configs : Configs) (method : String) (service : Service) (s : Handler)
    : Type 0 where
  pub method_name : s.method_name ≡ method
  pub req_method : s.req.method ≡ method
  pub with_request : (r : Request) × (s.req.request ≡ some r) × IsBuilt method r
  pub with_original : method == icap_mode_req ≡ true → (o : Original) × (s.req.org_request ≡ some o)
  pub with_response : method == icap_mode_req ≡ false → (r : Response) × (s.req.response ≡ some r)
  pub got :
      get_service configs s.vendor s.service_name method s.x_icap_metadata ≡ done (some service)

abbrev pub opened : Handler → Handler
opened s = record s { req = record s.req { request = some (or_empty s.req.request) } }

pub open_messages-done :
    (method : String) (s : Handler) → Waiting method s → open_messages s ≡ done (tt, opened s)
unfolding open_messages
open_messages-done method s k = elim (Bool-cases (method == icap_mode_req)) [
  | inl is_req ↦
      let (r, e_r, z) = k.with_request (not_resp method is_req) in
      let (o, e_o) = k.with_original is_req in
      let m = k.method_name in ground (arith, m, is_req, e_r, e_o)
  | inr not_req ↦
      let (r, e_r) = k.with_response not_req in
      let m = k.method_name in ground (arith, m, not_req, e_r)
]

pub opened-Ready :
    (configs : Configs) (method : String) (service : Service) (s : Handler)
    → Waiting method s
    → get_service configs s.vendor s.service_name method s.x_icap_metadata ≡ done (some service)
    → Ready configs method service (opened s)
opened-Ready configs method service s k got = record {
  method_name = k.method_name;
  req_method = k.req_method;
  with_request = elim (Bool-cases (method == icap_mode_resp)) [
    | inl is_resp ↦ (_, refl, λ other. absurd (cc (is_resp, other)))
    | inr other ↦ let (r, e, z) = k.with_request other in (r, rw e refl, λ _. z)
  ];
  with_original = k.with_original;
  with_response = k.with_response;
  got = got;
}

-- The steps that give no value.
pub returned :
    (o : Outcome (Unit {0} × Handler)) → o ≢ panicked → (s' : Handler) × (o ≡ done (tt, s'))
returned (done (tt, s')) h = (s', refl)
returned panicked h = absurd (h refl)

module _ (ext : External) (src : Source) (configs : Configs) where
  -- The whole body in the request, and in what was kept of it.
  abbrev rest_in_request : Bytes → Request → Original → Handler → Handler
  rest_in_request rest r o s = record s {
    method_name = s.req.method;
    req = record s.req {
      request = some (record r { body = rest });
      org_request = some (with_body rest o);
    };
  }

  abbrev rest_in_response : Bytes → Response → Handler → Handler
  rest_in_response rest r s = record s {
    method_name = s.req.method;
    req = record s.req { response = some (record r { body = rest }) };
  }

  take_the_rest-request :
      (method : String) (rest : Bytes) (s : Handler) (r : Request) (o : Original)
      → method == icap_mode_req ≡ true
      → s.req.method ≡ method
      → s.req.request ≡ some r
      → s.req.org_request ≡ some o
      → take_the_rest ext src configs rest s ≡ done (tt, rest_in_request rest r o s)
  unfolding take_the_rest
  take_the_rest-request method rest s r o is_req m e_r e_o = ground (arith, m, is_req, e_r, e_o)

  take_the_rest-response :
      (method : String) (rest : Bytes) (s : Handler) (r : Response)
      → method == icap_mode_req ≡ false
      → s.req.method ≡ method
      → s.req.response ≡ some r
      → take_the_rest ext src configs rest s ≡ done (tt, rest_in_response rest r s)
  unfolding take_the_rest
  take_the_rest-response method rest s r not_req m e_r = ground (arith, m, not_req, e_r)

  pub take_the_rest-done :
      (method : String) (rest : Bytes) (s : Handler) (service : Service)
      → Ready configs method service s
      → (s' : Handler) × (take_the_rest ext src configs rest s ≡ done (tt, s'))
        × Ready configs method service s'
  take_the_rest-done method rest s service k = elim (Bool-cases (method == icap_mode_req)) [
    | inl is_req ↦
        let (r, e_r, z) = k.with_request in
        let (o, e_o) = k.with_original is_req in
        (
          rest_in_request rest r o s,
          take_the_rest-request method rest s r o is_req k.req_method e_r e_o,
          record {
            method_name = k.req_method;
            req_method = k.req_method;
            with_request = (_, refl, z);
            with_original = λ _. (_, refl);
            with_response = k.with_response;
            got = k.got;
          },
        )
    | inr not_req ↦
        let (r, e_r) = k.with_response not_req in
        (
          rest_in_response rest r s,
          take_the_rest-response method rest s r not_req k.req_method e_r,
          record {
            method_name = k.req_method;
            req_method = k.req_method;
            with_request = k.with_request;
            with_original = k.with_original;
            with_response = λ _. (_, refl);
            got = k.got;
          },
        )
  ]

  no_modification-done :
      (method : String) (service : Service) (reply : Reply) (s : Handler)
      → Ready configs method service s
      → Responding.no_modification ext src configs reply s ≢ panicked
  unfolding Responding.no_modification
  no_modification-done method service reply s k e =
      let (r, e_r, z) = k.with_request in
      let m = k.method_name in
      elim (Bool-cases (method == icap_mode_req)) [
        | inl is_req ↦ let (o, e_o) = k.with_original is_req in ground (arith, m, is_req, e_r, e_o)
        | inr not_req ↦ ground (arith, m, not_req)
      ]

  pub answer-done :
      (method : String) (service : Service) (reply : Reply) (s : Handler)
      → Ready configs method service s
      → answer ext src configs reply s ≢ panicked
  unfolding answer
  answer-done method service reply s k e =
      let h = no_modification-done method service reply s k in ground (arith, h)
