-- ===== src/Api/Responding/Answered.antt =====
-- How often and with what a request is answered.
use icapegclh.Prelude.{
  ℕ, Bool, true, false, ◌≡◌, Option, none, some, [], ◌∷◌, ◌++◌, arith, Bool-cases, ◌⊎◌, ◌==◌,
  Option-cases, inl, inr,
}
use icapegclh.Prelude.Outcome.{Outcome, done, panicked}
use icapegclh.FormPart.{Bytes}
use icapegclh.Http.{Request, Message, nil_message, request_message, HttpMsg}
use icapegclh.External.{External}
use icapegclh.Settings.{Source}
use icapegclh.Exchange.Ensures.{elim-eq-done}
use icapegclh.Service.Reply.{Reply}
use icapegclh.Service.Dispatch.{Configs, Service, get_service}
use icapegclh.Service.Status.{IsFinal, ok, no_modification, bad_request, time_out, server_error}
use icapegclh.Service.Final.{processing-IsFinal, processing-preview}
use icapegclh.Api.Handler.{Original, Handler, head, lift}
use icapegclh.Api.Responding
use icapegclh.Api.Responding.{
  as_it_came, use_service, use_result, open_messages, call_service, take_the_rest, answer,
  after_service, resp_and_req_mods,
}

-- From `s` to `s'` one response head was written, after what was there, and 204 only if allowed.
pub record Answered (s s' : Handler) : Type 0 where
  pub code : ℕ
  pub message : Message
  pub has_body : Bool
  pub written : s'.w ≡ s.w ++ head code message has_body ∷ []
  pub allowed : code ≡ 204 → s.is_204_allowed ≡ true

-- What the steps before an answer leave alone.
pub record Untouched (s s' : Handler) : Type 0 where
  pub w : s'.w ≡ s.w
  pub is_204_allowed : s'.is_204_allowed ≡ s.is_204_allowed
  pub shadow : s'.is_shadow_service_enabled ≡ s.is_shadow_service_enabled

pub open_messages-Untouched : (s s' : Handler) → open_messages s ≡ done (tt, s') → Untouched s s'
unfolding open_messages
open_messages-Untouched s s' e = ground arith

module _ (ext : External) (src : Source) (configs : Configs) where
  pub take_the_rest-Untouched :
      (rest : Bytes) (s s' : Handler)
      → take_the_rest ext src configs rest s ≡ done (tt, s')
      → Untouched s s'
  unfolding take_the_rest
  take_the_rest-Untouched rest s s' e = ground arith

  pub call_service-Untouched :
      (partial : Bool) (s s' : Handler) (reply : Reply)
      → call_service ext src configs partial s ≡ done (reply, s')
      → Untouched s s'
  unfolding call_service use_service use_result
  call_service-Untouched partial s s' reply e = ground arith

  use_result-eq-done :
      (result : Outcome (Reply × HttpMsg)) (s s' : Handler) (reply : Reply)
      → use_result ext src configs result s ≡ done (reply, s')
      → (msg : HttpMsg) × (result ≡ done (reply, msg))
  unfolding use_result
  use_result-eq-done (done (r, msg)) s s' reply e = (msg, ground arith)
  use_result-eq-done panicked s s' reply e = cc

  use_service-IsFinal :
      (service : Option Service) (s s' : Handler) (reply : Reply)
      → use_service ext src configs false service s ≡ done (reply, s')
      → IsFinal reply.status
  unfolding use_service
  use_service-IsFinal none s s' reply e = cc
  use_service-IsFinal (some service) s s' reply e =
      let (msg, returned) = use_result-eq-done _ s s' reply e in
      processing-IsFinal ext src service s.req.header _ msg reply returned

  -- The service's part of a round with the whole body.
  pub call_service-IsFinal :
      (s s' : Handler) (reply : Reply)
      → call_service ext src configs false s ≡ done (reply, s')
      → IsFinal reply.status
  unfolding call_service
  call_service-IsFinal s s' reply e =
      let (required, t, _, e') =
        elim-eq-done
          (lift (get_service configs s.vendor s.service_name s.method_name s.x_icap_metadata) s) _
          reply s' e in
      use_service-IsFinal required t s' reply e'

  use_service-preview :
      (service : Option Service) (s s' : Handler) (reply : Reply)
      → use_service ext src configs true service s ≡ done (reply, s')
      → reply.status ≡ 100
  unfolding use_service
  use_service-preview none s s' reply e = cc
  use_service-preview (some service) s s' reply e =
      let (msg, returned) = use_result-eq-done _ s s' reply e in
      (processing-preview ext src service s.req.header _ msg reply returned).0

  -- The service's part of a round with a preview.
  pub call_service-preview :
      (s s' : Handler) (reply : Reply)
      → call_service ext src configs true s ≡ done (reply, s')
      → reply.status ≡ 100
  unfolding call_service
  call_service-preview s s' reply e =
      let (required, t, _, e') =
        elim-eq-done
          (lift (get_service configs s.vendor s.service_name s.method_name s.x_icap_metadata) s) _
          reply s' e in
      use_service-preview required t s' reply e'

  -- In REQMOD, where 204 is not allowed.
  as_it_came-Answered :
      (reply : Reply) (s s' : Handler)
      → Responding.no_modification ext src configs reply s ≡ done (tt, s')
      → s.is_204_allowed ≡ false
      → (s.method_name == "REQMOD") ≡ true
      → (s.req.request ≡ none) ⊎ ((r : Request) × (s.req.request ≡ some r))
      → (s.req.org_request ≡ none) ⊎ ((o : Original) × (s.req.org_request ≡ some o))
      → Answered s s'
  unfolding Responding.no_modification
  as_it_came-Answered reply s s' h no_204 req (inl no_request) _ = absurd (ground arith)
  as_it_came-Answered reply s s' h no_204 req (inr (r, some_r)) (inl no_original) =
      absurd (ground arith)
  as_it_came-Answered reply s s' h no_204 req (inr (r, some_r)) (inr (o, some_o)) = record {
    code = 200;
    message = request_message (as_it_came ext src configs o r);
    has_body = true;
    written = ground arith;
    allowed = λ e. absurd (omega arith);
  }

  no_modification-Answered :
      (reply : Reply) (s s' : Handler)
      → Responding.no_modification ext src configs reply s ≡ done (tt, s')
      → Answered s s'
  unfolding Responding.no_modification
  no_modification-Answered reply s s' h = elim (Bool-cases s.is_204_allowed) [
    | inl yes_204 ↦ record {
      code = 204;
      message = nil_message;
      has_body = false;
      written = ground arith;
      allowed = λ _. yes_204;
    }
    | inr no_204 ↦ not_allowed no_204 (Bool-cases (s.method_name == "REQMOD"))
  ]
    where
      not_allowed :
          s.is_204_allowed ≡ false
          → ((s.method_name == "REQMOD") ≡ true) ⊎ ((s.method_name == "REQMOD") ≡ false)
          → Answered s s'
      not_allowed no_204 (inl req) =
          as_it_came-Answered reply s s' h no_204 req (Option-cases s.req.request)
            (Option-cases s.req.org_request)
      not_allowed no_204 (inr resp) = record {
        code = 200;
        message = reply.message;
        has_body = true;
        written = ground (arith, no_204, resp, h);
        allowed = λ e. absurd (omega arith);
      }

  pub answer-Answered :
      (reply : Reply) (s s' : Handler)
      → IsFinal reply.status
      → answer ext src configs reply s ≡ done (tt, s')
      → Answered s s'
  unfolding answer
  answer-Answered reply s s' (ok e) h = record {
    code = 200;
    message = reply.message;
    has_body = true;
    written = ground arith;
    allowed = ground arith;
  }
  answer-Answered reply s s' (no_modification e) h =
      no_modification-Answered reply s s' (ground arith)
  answer-Answered reply s s' (bad_request e) h = record {
    code = 400;
    message = reply.message;
    has_body = true;
    written = ground arith;
    allowed = ground arith;
  }
  answer-Answered reply s s' (time_out e) h = record {
    code = 408;
    message = nil_message;
    has_body = false;
    written = ground arith;
    allowed = ground arith;
  }
  answer-Answered reply s s' (server_error e) h = record {
    code = 500;
    message = nil_message;
    has_body = false;
    written = ground arith;
    allowed = ground arith;
  }
