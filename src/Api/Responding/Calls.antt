-- ===== src/Api/Responding/Calls.antt =====
-- How many calls of `RespAndReqMods` a request needs, and what shadow mode leaves of them.
use icapegclh.Prelude.{
  ℕ, suc, nat_eq, if◌then◌else◌, Bool, true, false, ◌≡◌, refl, ◌∙◌, arith, Bool-cases, inl, inr,
}
use icapegclh.Prelude.Outcome.{Outcome, done, panicked}
use icapegclh.FormPart.{Bytes}
use icapegclh.External.{External}
use icapegclh.Settings.{Source}
use icapegclh.Service.Reply.{Reply}
use icapegclh.Service.Dispatch.{Configs}
use icapegclh.Service.Status.{IsFinal}
use icapegclh.Api.Handler.{Handler, pure, ◌>>◌}
use icapegclh.Api.Responding
use icapegclh.Api.Responding.{
  open_messages, call_service, take_the_rest, after_service, call_mods, resp_and_req_mods,
}
use icapegclh.Api.Responding.Answered.{call_service-IsFinal}
use icapegclh.Api.Responding.Rounds.{final_is_not_100, rounds-Round, Round-Untouched}

-- Two chains agree that agree after what their common first call returns.
elim-same :
    {A B S : Type 0} (m : Outcome (A × S)) (f g : A → S → Outcome (B × S))
    → ((a : A) (t : S) → m ≡ done (a, t) → f a t ≡ g a t)
    → (elim m [ done (a, t) ↦ f a t | panicked ↦ panicked ])
      ≡ (elim m [ done (a, t) ↦ g a t | panicked ↦ panicked ])
elim-same (done (a, t)) f g same = same a t refl
elim-same panicked f g same = refl

module _ (ext : External) (src : Source) (configs : Configs) (rest : Bytes) where
  after_final-same :
      (again again' : Handler → Outcome (Unit {0} × Handler)) (reply : Reply) (s : Handler)
      → IsFinal reply.status
      → after_service ext src configs again rest reply s
        ≡ after_service ext src configs again' rest reply s
  unfolding after_service
  after_final-same again again' reply s final =
      let n = final_is_not_100 reply.status final in
      elim (Bool-cases s.is_shadow_service_enabled) [
        | inl on ↦ ground (arith, n, on)
        | inr off ↦ ground (arith, n, off)
      ]

  after_service-same :
      (again again' : Handler → Outcome (Unit {0} × Handler)) (reply : Reply) (s : Handler)
      → ((t : Handler) → again t ≡ again' t)
      → after_service ext src configs again rest reply s
        ≡ after_service ext src configs again' rest reply s
  unfolding after_service
  after_service-same again again' reply s same =
      branch s.is_shadow_service_enabled (nat_eq reply.status 100)
    where
      branch :
          (b c : Bool)
          → (if b
                then pure tt
                else if c
                then take_the_rest ext src configs rest >> again
                else Responding.answer ext src configs reply)
              s
            ≡ (if b
                  then pure tt
                  else if c
                  then take_the_rest ext src configs rest >> again'
                  else Responding.answer ext src configs reply)
                s
      branch true c = refl
      branch false true = elim-same (take_the_rest ext src configs rest s) _ _ (λ _ t _. same t)
      branch false false = refl

  pub whole-same :
      (spent spent' : Handler → Outcome (Unit {0} × Handler)) (calls : ℕ) (s : Handler)
      → call_mods ext src configs spent (suc calls) rest false s
        ≡ call_mods ext src configs spent' 1 rest false s
  unfolding call_mods
  whole-same spent spent' calls s = elim-same (open_messages s) _ _ (λ _ t _.
      elim-same (call_service ext src configs false t) _ _ (λ reply u called.
        after_final-same _ _ reply u (call_service-IsFinal ext src configs t u reply called)))

  -- Two calls of `RespAndReqMods` are enough for every request: with two calls or more the result is the
  -- same, whatever would follow where no call is left, so no run gets there.
  pub resp_and_req_mods-calls :
      (spent spent' : Handler → Outcome (Unit {0} × Handler)) (more : ℕ) (partial : Bool)
      (s : Handler)
      → call_mods ext src configs spent (suc (suc more)) rest partial s
        ≡ call_mods ext src configs spent' 2 rest partial s
  unfolding call_mods
  resp_and_req_mods-calls spent spent' more partial s = elim-same (open_messages s) _ _ (λ _ t _.
      elim-same (call_service ext src configs partial t) _ _
        (λ reply u _. after_service-same _ _ reply u (whole-same spent spent' more)))

  -- In shadow mode the processing writes nothing.
  shadow_round :
      (again : Handler → Outcome (Unit {0} × Handler)) (reply : Reply) (s s' : Handler)
      → s.is_shadow_service_enabled ≡ true
      → after_service ext src configs again rest reply s ≡ done (tt, s')
      → s'.w ≡ s.w
  unfolding after_service
  shadow_round again reply s s' on h = ground (arith, on, h)

  -- With shadow mode on, a call of `RespAndReqMods` that returns has written nothing to the client.
  pub resp_and_req_mods-shadow :
      (calls : ℕ) (partial : Bool) (s s' : Handler)
      → s.is_shadow_service_enabled ≡ true
      → resp_and_req_mods ext src configs (suc calls) rest partial s ≡ done (tt, s')
      → s'.w ≡ s.w
  resp_and_req_mods-shadow calls partial s s' on h =
      let r = rounds-Round ext src configs rest calls partial s s' h in
      let u = Round-Untouched ext src configs rest _ partial s s' r in
      shadow_round _ r.reply r.replied s' (u.shadow ∙ on) r.ends ∙ u.w
