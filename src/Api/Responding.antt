-- ===== src/Api/Responding.antt =====
-- api/icap-request.go: a REQMOD or RESPMOD request is handed to its service, and the service's
-- result is turned into the ICAP response.
pub mod Answered
pub mod AsItCame
pub mod Rounds
pub mod Calls
pub mod Returning
use icapegclh.Prelude.{
  ℕ, zero, suc, String, Bool, true, false, Option, none, some, List, [], ◌∷◌, nat_eq, ◌==◌, length,
  if◌then◌else◌,
}
use icapegclh.Prelude.Outcome.{Outcome, done, panicked}
use icapegclh.Consts.{
  icap_mode_req, continue_status_code, no_modification_status_code, ok_status_code,
  bad_request_status_code, internal_server_err_status_code, request_time_out_status_code,
  content_length,
}
use icapegclh.Text.{itoa}
use icapegclh.Header.{Header, insert, set}
use icapegclh.FormPart.{Bytes}
use icapegclh.Http.{
  Message, nil_message, request_message, new_http_msg, HttpMsg, Request, Response, Url,
}
use icapegclh.External.{External}
use icapegclh.Settings.{Source}
use icapegclh.Service.Reply.{Reply}
use icapegclh.Service.Dispatch.{Configs, Service, get_service, processing}
use icapegclh.Api.Handler.{
  Handler, H, Original, own, same, IcapRequest, head, ◌>>=◌, ◌>>◌, pure, abort, lift, self, modify,
  update_req, write, the_request, the_response, the_original,
}

-- `&http.Request{}`. Its URL, header map and body are nil, which `is_zero` says: the values that stand for
-- them here are not reached.
abbrev empty_request : Request
empty_request = record {
  method = "";
  url = record { scheme = ""; opaque_part = ""; host = ""; path = "" };
  request_uri = "";
  header = [];
  remote_addr = "";
  host = "";
  proto = "";
  body = [];
  is_zero = true;
}

abbrev or_empty : Option Request → Request
or_empty none = empty_request
or_empty (some r) = r

-- The deferred `Close` calls dereference the messages first; a nil request is then replaced.
unfoldable pub open_messages : H (Unit {0})
open_messages = do
  s ← self
  if s.method_name == icap_mode_req
      then (do r ← the_request; o ← the_original; pure tt)
      else (do r ← the_response; pure tt)
  update_req (λ q. record q { request = some (or_empty q.request) })

-- `for key, value := range serviceHeaders { i.h[key] = []string{value} }`
abbrev add_headers : List (String × String) → Header → Header
add_headers [] h = h
add_headers ((key, value) ∷ rest) h = add_headers rest (insert key (value ∷ []) h)

abbrev headers_of : Option (List (String × String)) → List (String × String)
headers_of none = []
headers_of (some l) = l

abbrev with_body : Bytes → Original → Original
with_body body (own method url _) = own method url body
with_body body same = same

-- `i.req.OrgRequest.Body`
abbrev original_body : Original → Request → Bytes
original_body (own _ _ body) r = body
original_body same r = r.body

module _ (ext : External) (src : Source) (configs : Configs) where
  -- What is done with the results of `Processing`. The message's request is the one in `i.req`; its response is too, but
  -- where the service replaced it, and then `i.req.Response` is not read again.
  unfoldable pub use_result : Outcome (Reply × HttpMsg) → H Reply
  use_result result = do
    (reply, msg) ← lift result
    update_req (λ q. record q {
      header = reply.icap_header;
      request = msg.request;
      response = msg.response;
    })
    modify (λ t. record t { h = add_headers (headers_of reply.service_headers) t.h })
    pure reply

  -- A nil service panics.
  unfoldable pub use_service : Bool → Option Service → H Reply
  use_service partial none = abort
  use_service partial (some service) = do
    s ← self
    use_result (
        processing ext src service partial s.req.header (new_http_msg s.req.request s.req.response))

  unfoldable pub call_service : Bool → H Reply
  call_service partial = do
    s ← self
    required ← lift (get_service configs s.vendor s.service_name s.method_name s.x_icap_metadata)
    use_service partial required

  -- The whole body, as `GetTheRest` reads it, becomes the body of the messages.
  unfoldable pub take_the_rest : Bytes → H (Unit {0})
  take_the_rest rest = do
    modify (λ s. record s { method_name = s.req.method })
    s ← self
    if s.req.method == icap_mode_req
        then (do
          r ← the_request
          o ← the_original
          update_req (λ q. record q {
            request = some (record r { body = rest });
            org_request = some (with_body rest o);
          }))
        else (do
          r ← the_response
          update_req (λ q. record q { response = some (record r { body = rest }) }))

  -- The request with the body that was kept of it, and the length of that body.
  unfoldable pub as_it_came : Original → Request → Request
  as_it_came o r = record r {
    body = original_body o r;
    header = set ext.canonical content_length (itoa (length (original_body o r))) r.header;
  }

  -- The answer 204, or 200 with the message where 204 is not allowed; in REQMOD with the body as it
  -- came.
  unfoldable pub no_modification : Reply → H (Unit {0})
  no_modification reply = do
    s ← self
    if s.is_204_allowed
        then write (head no_modification_status_code nil_message false)
        else if s.method_name == icap_mode_req
        then (do
          r ← the_request
          o ← the_original
          let r' = as_it_came o r
          update_req (λ q. record q { request = some r' })
          write (head ok_status_code (request_message r') true))
        else write (head ok_status_code reply.message true)

  -- The `switch` on the service's status, but for 100.
  unfoldable pub answer : Reply → H (Unit {0})
  answer reply =
      if nat_eq reply.status internal_server_err_status_code
      then write (head reply.status nil_message false)
      else if nat_eq reply.status request_time_out_status_code
      then write (head reply.status nil_message false)
      else if nat_eq reply.status no_modification_status_code
      then no_modification reply
      else if nat_eq reply.status ok_status_code
      then write (head ok_status_code reply.message true)
      else if nat_eq reply.status bad_request_status_code
      then write (head reply.status reply.message true)
      else pure tt

  -- What follows the service's reply: nothing more in shadow mode, another round with the whole body
  -- after 100, else the answer.
  unfoldable pub after_service : H (Unit {0}) → Bytes → Reply → H (Unit {0})
  after_service again rest reply = do
    s ← self
    if s.is_shadow_service_enabled
        then pure tt
        else if nat_eq reply.status continue_status_code
        then (do take_the_rest rest; again)
        else answer reply

  -- `RespAndReqMods`, with `rest` for the body that the client sends after 100 Continue. The calls
  -- that are left are counted, and `spent` stands for what would follow when none is left.
  unfoldable pub call_mods : (spent : H (Unit {0})) → ℕ → Bytes → Bool → H (Unit {0})
  call_mods spent zero rest partial = spent
  call_mods spent (suc calls) rest partial = do
    open_messages
    reply ← call_service partial
    after_service (call_mods spent calls rest false) rest reply

  -- `panicked` stands for the calls that are left out.
  abbrev pub resp_and_req_mods : ℕ → Bytes → Bool → H (Unit {0})
  resp_and_req_mods calls rest partial = call_mods abort calls rest partial
