-- ===== src/Api/Responding/Rounds.antt =====
-- The rounds of a request: at most one with a preview, then one with the whole body.
use mathlib.Core.Path.{sym, ap}
use icapegclh.Prelude.{ℕ, suc, nat_eq, ◌∙◌, ◌++◌, [], ◌∷◌, Bool, true, false, ◌≡◌, arith}
use icapegclh.Prelude.Outcome.{Outcome, done}
use icapegclh.FormPart.{Bytes}
use icapegclh.External.{External}
use icapegclh.Settings.{Source}
use icapegclh.Exchange.Ensures.{elim-eq-done}
use icapegclh.Service.Reply.{Reply}
use icapegclh.Service.Dispatch.{Configs}
use icapegclh.Service.Status.{IsFinal, ok, no_modification, bad_request, time_out, server_error}
use icapegclh.Api.Handler.{Handler, head}
use icapegclh.Api.Responding.{
  open_messages, call_service, take_the_rest, after_service, call_mods, resp_and_req_mods,
}
use icapegclh.Api.Responding.Answered.{
  Answered, Untouched, open_messages-Untouched, take_the_rest-Untouched, call_service-Untouched,
  call_service-IsFinal, call_service-preview, answer-Answered,
}

then_Answered : (s t s' : Handler) → Untouched s t → Answered t s' → Answered s s'
then_Answered s t s' u a = record {
  code = a.code;
  message = a.message;
  has_body = a.has_body;
  written = a.written ∙ ap (λ l. l ++ head a.code a.message a.has_body ∷ []) u.w;
  allowed = λ e. sym u.is_204_allowed ∙ a.allowed e;
}

then_Untouched : (s t s' : Handler) → Untouched s t → Untouched t s' → Untouched s s'
then_Untouched s t s' u v = record {
  w = v.w ∙ u.w;
  is_204_allowed = v.is_204_allowed ∙ u.is_204_allowed;
  shadow = v.shadow ∙ u.shadow;
}

pub final_is_not_100 : (n : ℕ) → IsFinal n → nat_eq n 100 ≡ false
final_is_not_100 n (ok e) = ground arith
final_is_not_100 n (no_modification e) = ground arith
final_is_not_100 n (bad_request e) = ground arith
final_is_not_100 n (time_out e) = ground arith
final_is_not_100 n (server_error e) = ground arith

module _ (ext : External) (src : Source) (configs : Configs) (rest : Bytes) where
  abbrev rounds : ℕ → Bool → Handler → Outcome (Unit {0} × Handler)
  rounds calls partial = resp_and_req_mods ext src configs calls rest partial

  -- The steps of a round that returns.
  pub record Round (again : Handler → Outcome (Unit {0} × Handler)) (partial : Bool)
      (s s' : Handler) : Type 0 where
    pub reply : Reply
    pub opened : Handler
    pub replied : Handler
    pub opens : open_messages s ≡ done (tt, opened)
    pub calls : call_service ext src configs partial opened ≡ done (reply, replied)
    pub ends : after_service ext src configs again rest reply replied ≡ done (tt, s')

  pub rounds-Round :
      (calls : ℕ) (partial : Bool) (s s' : Handler)
      → rounds (suc calls) partial s ≡ done (tt, s')
      → Round (rounds calls false) partial s s'
  unfolding call_mods
  rounds-Round calls partial s s' h =
      let (_, opened, opens, h') = elim-eq-done (open_messages s) _ tt s' h in
      let (reply, replied, called, ends) =
        elim-eq-done (call_service ext src configs partial opened) _ tt s' h' in
      record {
        reply = reply;
        opened = opened;
        replied = replied;
        opens = opens;
        calls = called;
        ends = ends;
      }

  pub Round-Untouched :
      (again : Handler → Outcome (Unit {0} × Handler)) (partial : Bool) (s s' : Handler)
      → (r : Round again partial s s') → Untouched s r.replied
  Round-Untouched again partial s s' r =
      then_Untouched s r.opened r.replied (open_messages-Untouched s r.opened r.opens)
        (call_service-Untouched ext src configs partial r.opened r.replied r.reply r.calls)

  after_final-Answered :
      (again : Handler → Outcome (Unit {0} × Handler)) (reply : Reply) (s s' : Handler)
      → s.is_shadow_service_enabled ≡ false
      → IsFinal reply.status
      → after_service ext src configs again rest reply s ≡ done (tt, s')
      → Answered s s'
  unfolding after_service
  after_final-Answered again reply s s' off final h =
      let n = final_is_not_100 reply.status final in
      answer-Answered ext src configs reply s s' final (ground (arith, n, off, h))

  -- The round with the whole body.
  whole-Answered :
      (calls : ℕ) (s s' : Handler)
      → s.is_shadow_service_enabled ≡ false
      → rounds (suc calls) false s ≡ done (tt, s')
      → Answered s s'
  whole-Answered calls s s' off h =
      let r = rounds-Round calls false s s' h in
      let u = Round-Untouched _ false s s' r in
      then_Answered s r.replied s' u (
        after_final-Answered _ r.reply r.replied s' (u.shadow ∙ off)
          (call_service-IsFinal ext src configs r.opened r.replied r.reply r.calls) r.ends)

  after_preview-Answered :
      (calls : ℕ) (reply : Reply) (s s' : Handler)
      → s.is_shadow_service_enabled ≡ false
      → reply.status ≡ 100
      → after_service ext src configs (rounds (suc calls) false) rest reply s ≡ done (tt, s')
      → Answered s s'
  unfolding after_service
  after_preview-Answered calls reply s s' off is_100 h =
      let (_, t, taken, h') =
        elim-eq-done (take_the_rest ext src configs rest s) (λ _ t. rounds (suc calls) false t) tt
          s' (ground (arith, is_100, off, h)) in
      let u = take_the_rest-Untouched ext src configs rest s t taken in
      then_Answered s t s' u (whole-Answered calls t s' (u.shadow ∙ off) h')

  -- With shadow mode off, a call of `RespAndReqMods` that returns has written exactly one response
  -- head after what was there, and that head is 204 only if the client allows 204.
  pub resp_and_req_mods-Answered :
      (partial : Bool) (s s' : Handler)
      → s.is_shadow_service_enabled ≡ false
      → resp_and_req_mods ext src configs 2 rest partial s ≡ done (tt, s')
      → Answered s s'
  resp_and_req_mods-Answered false s s' off h = whole-Answered 1 s s' off h
  resp_and_req_mods-Answered true s s' off h =
      let r = rounds-Round 1 true s s' h in
      let u = Round-Untouched _ true s s' r in
      then_Answered s r.replied s' u (
        after_preview-Answered 0 r.reply r.replied s' (u.shadow ∙ off)
          (call_service-preview ext src configs r.opened r.replied r.reply r.calls) r.ends)
