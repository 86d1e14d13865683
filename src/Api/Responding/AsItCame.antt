-- ===== src/Api/Responding/AsItCame.antt =====
-- REQMOD where the client does not allow 204: the request that is sent back in its place.
use icapegclh.Prelude.{
  ℕ, suc, String, ◌==◌, Option-cases, inl, inr, true, false, ◌≡◌, refl, ◌∙◌, ap, some, [], ◌∷◌,
  ◌++◌, arith, length,
}
use icapegclh.Prelude.Outcome.{Outcome, done}
use icapegclh.Consts.{content_length}
use icapegclh.Text.{itoa}
use icapegclh.FormPart.{Bytes}
use icapegclh.Header.{get, get-set_self}
use icapegclh.Http.{Request, Url, request_message}
use icapegclh.External.{External}
use icapegclh.Settings.{Source}
use icapegclh.Service.Reply.{Reply}
use icapegclh.Service.Dispatch.{Configs}
use icapegclh.Api.Handler.{Handler, own, head}
use icapegclh.Api.Responding
use icapegclh.Api.Responding.{
  as_it_came, open_messages, use_service, use_result, call_service, answer, after_service,
  resp_and_req_mods,
}
use icapegclh.Api.Responding.Rounds.{rounds-Round, Round-Untouched}

-- What the steps before the answer keep: the copy of the request, and the mode.
record Kept (s s' : Handler) : Type 0 where
  original : s'.req.org_request ≡ s.req.org_request
  method_name : s'.method_name ≡ s.method_name

open_messages-Kept : (s s' : Handler) → open_messages s ≡ done (tt, s') → Kept s s'
unfolding open_messages
open_messages-Kept s s' e = record { original = ground arith; method_name = ground arith }

module _ (ext : External) (src : Source) (configs : Configs) where
  call_service-Kept :
      (s s' : Handler) (reply : Reply)
      → call_service ext src configs false s ≡ done (reply, s')
      → Kept s s'
  unfolding call_service use_service use_result
  call_service-Kept s s' reply e = record { original = ground arith; method_name = ground arith }

  -- The request with that body, and its length.
  pub record SentBack (body : Bytes) (s s' : Handler) : Type 0 where
    pub request : Request
    pub written : s'.w ≡ s.w ++ head 200 (request_message request) true ∷ []
    pub same_body : request.body ≡ body
    pub same_length : get ext.canonical request.header content_length ≡ itoa (length body)

  no_modification-SentBack :
      (reply : Reply) (s s' : Handler) (r : Request) (method : String) (url : Url) (body : Bytes)
      → s.is_204_allowed ≡ false
      → s.method_name == "REQMOD" ≡ true
      → s.req.org_request ≡ some (own method url body)
      → s.req.request ≡ some r
      → Responding.no_modification ext src configs reply s ≡ done (tt, s')
      → SentBack body s s'
  unfolding Responding.no_modification as_it_came
  no_modification-SentBack reply s s' r method url body no_204 mode copied is_r e = record {
    request = as_it_came ext src configs (own method url body) r;
    written = ground arith;
    same_body = refl;
    same_length = get-set_self ext.canonical content_length (itoa (length body)) r.header;
  }

  answer-no_modification :
      (reply : Reply) (s s' : Handler)
      → reply.status ≡ 204
      → answer ext src configs reply s ≡ done (tt, s')
      → Responding.no_modification ext src configs reply s ≡ done (tt, s')
  unfolding answer
  answer-no_modification reply s s' is_204 e = ground arith

  -- A request is there where the answer needs one.
  some_request :
      (reply : Reply) (s s' : Handler)
      → s.is_204_allowed ≡ false
      → s.method_name == "REQMOD" ≡ true
      → Responding.no_modification ext src configs reply s ≡ done (tt, s')
      → (r : Request) × (s.req.request ≡ some r)
  unfolding Responding.no_modification
  some_request reply s s' no_204 mode e = elim (Option-cases s.req.request) [
    | inl missing ↦ absurd (ground arith)
    | inr found ↦ found
  ]

  answered_round :
      (rest : Bytes) (again : Handler → Outcome (Unit {0} × Handler)) (reply : Reply)
      (s s' : Handler)
      → s.is_shadow_service_enabled ≡ false
      → reply.status ≡ 204
      → after_service ext src configs again rest reply s ≡ done (tt, s')
      → answer ext src configs reply s ≡ done (tt, s')
  unfolding after_service
  answered_round rest again reply s s' off is_204 e = ground arith

  -- With shadow mode off, where the client does not allow 204 and a REQMOD request was copied with its
  -- body, a round with the whole body that returns and whose service replied 204 has written 200 with a
  -- request that has the body that was copied and its length as Content-Length, whatever the service did
  -- to the request.
  pub resp_and_req_mods-SentBack :
      (rest : Bytes) (calls : ℕ) (s s' : Handler) (method : String) (url : Url) (body : Bytes)
      → s.is_shadow_service_enabled ≡ false
      → s.is_204_allowed ≡ false
      → s.method_name ≡ "REQMOD"
      → s.req.org_request ≡ some (own method url body)
      → resp_and_req_mods ext src configs (suc calls) rest false s ≡ done (tt, s')
      → (reply : Reply) × (opened : Handler) × (replied : Handler) × (open_messages s
          ≡ done (tt, opened))
        × (call_service ext src configs false opened ≡ done (reply, replied))
        × (reply.status ≡ 204 → SentBack body s s')
  resp_and_req_mods-SentBack rest calls s s' method url body off no_204 mode copied e =
      let round = rounds-Round ext src configs rest calls false s s' e in
      let untouched = Round-Untouched ext src configs rest _ false s s' round in
      let first = open_messages-Kept s round.opened round.opens in
      let second = call_service-Kept round.opened round.replied round.reply round.calls in
      (
        round.reply,
        round.opened,
        round.replied,
        round.opens,
        round.calls,
        λ is_204.
            let ended = answer-no_modification round.reply round.replied s' is_204 (
              answered_round rest _ round.reply round.replied s' (untouched.shadow ∙ off) is_204
                round.ends) in
            let mode' : round.replied.method_name == "REQMOD" ≡ true =
              ap (λ n. n == "REQMOD") (second.method_name ∙ first.method_name ∙ mode) in
            let no_204' = untouched.is_204_allowed ∙ no_204 in
            let (r, is_r) = some_request round.reply round.replied s' no_204' mode' ended in
            let sent =
              no_modification-SentBack round.reply round.replied s' r method url body no_204' mode'
                (second.original ∙ first.original ∙ copied) is_r ended in
            record {
              request = sent.request;
              written =
                  sent.written
                  ∙ ap (λ w. w ++ head 200 (request_message sent.request) true ∷ []) untouched.w;
              same_body = sent.same_body;
              same_length = sent.same_length;
            },
      )
