-- ===== src/Api/Serving/OneHead.antt =====
-- How many responses a request gets, from its arrival on.
use mathlib.Core.Path.{sym}
use icapegclh.Prelude.{
  ℕ, suc, String, Bool, true, false, ◌≡◌, refl, ◌∙◌, ap, arith, Bool-cases, ◌==◌, inl, inr,
  if◌then◌else◌,
}
use icapegclh.Prelude.Outcome.{done, done-injective}
use icapegclh.FormPart.{Bytes}
use icapegclh.Http.{Url}
use icapegclh.External.{External}
use icapegclh.Settings.{Source}
use icapegclh.Exchange.Ensures.{elim-eq-done}
use icapegclh.Service.Dispatch.{Configs}
use icapegclh.Api.Handler.{Handler}
use icapegclh.Api.Initialization.{
  Initialized, proceed, service_missing, method_not_allowed, shadow, request_initialization,
}
use icapegclh.Api.Initialization.Outcomes.{heads, heads-head, Begun, request_initialization-Begun}
use icapegclh.Api.Responding.{resp_and_req_mods}
use icapegclh.Api.Responding.Rounds.{resp_and_req_mods-Answered}
use icapegclh.Api.Responding.Calls.{resp_and_req_mods-shadow}
use icapegclh.Api.Serving.{
  options_mode, copy_messages, is_partial, host_header, request_processing, process_as,
  to_icapeg_serve,
}

-- What the steps before the answer leave alone.
record Kept (s s' : Handler) : Type 0 where
  w : s'.w ≡ s.w
  method_name : s'.method_name ≡ s.method_name
  shadow : s'.is_shadow_service_enabled ≡ s.is_shadow_service_enabled

module _ (ext : External) where
  is_partial-Kept :
      (new_request : String → Url → Bool) (s s' : Handler) (partial : Bool)
      → is_partial ext new_request s ≡ done (partial, s')
      → Kept s s'
  unfolding is_partial copy_messages
  is_partial-Kept new_request s s' partial e = record {
    w = ground arith;
    method_name = ground arith;
    shadow = ground arith;
  }

  host_header-Kept : (s s' : Handler) → host_header ext s ≡ done (tt, s') → Kept s s'
  unfolding host_header
  host_header-Kept s s' e = record {
    w = ground arith;
    method_name = ground arith;
    shadow = ground arith;
  }

  options_mode-head :
      (s s' : Handler) → options_mode ext s ≡ done (tt, s') → heads s'.w ≡ suc (heads s.w)
  unfolding options_mode
  options_mode-head s s' e = grind (arith, heads-head)

  module _ (src : Source) (configs : Configs) (rest : Bytes) where
    -- What the processing writes, in each of its modes.
    Processed : Handler → Handler → Type 0
    Processed s s' =
        (s.method_name == "OPTIONS" ≡ true → heads s'.w ≡ suc (heads s.w))
        × (s.is_shadow_service_enabled ≡ false → heads s'.w ≡ suc (heads s.w))
        × (s.method_name == "OPTIONS" ≡ false → s.is_shadow_service_enabled ≡ true → s'.w ≡ s.w)

    Kept-Processed : (s t s' : Handler) → Kept s t → Processed t s' → Processed s s'
    unfolding Processed
    Kept-Processed s t s' k p =
        let same_heads = ap (λ w. suc (heads w)) k.w in
        (
          λ o. p.0 (ap (λ m. m == "OPTIONS") k.method_name ∙ o) ∙ same_heads,
          λ off. p.1 (k.shadow ∙ off) ∙ same_heads,
          λ o on. p.2 (ap (λ m. m == "OPTIONS") k.method_name ∙ o) (k.shadow ∙ on) ∙ k.w,
        )

    chosen-Processed :
        (is_options partial : Bool) (s s' : Handler)
        → s.method_name == "OPTIONS" ≡ is_options
        → (if is_options
              then options_mode ext
              else resp_and_req_mods ext src configs 2 rest partial)
            s
          ≡ done (tt, s')
        → Processed s s'
    unfolding Processed
    chosen-Processed true partial s s' o e =
        let one = options_mode-head s s' e in (λ _. one, λ _. one, λ no. absurd (ground arith))
    chosen-Processed false partial s s' o e = (
      λ yes. absurd (ground arith),
      λ off.
          let a = resp_and_req_mods-Answered ext src configs rest partial s s' off e in
          ap heads a.written ∙ heads-head s.w a.code a.message a.has_body,
      λ _ on. resp_and_req_mods-shadow ext src configs rest 1 partial s s' on e,
    )

    request_processing-Processed :
        (new_request : String → Url → Bool) (s s' : Handler)
        → request_processing ext src configs new_request rest s ≡ done (tt, s')
        → Processed s s'
    unfolding request_processing
    request_processing-Processed new_request s s' e =
        let (partial, t, prepared, e1) = elim-eq-done (is_partial ext new_request s) _ tt s' e in
        let (_, u, hosted, e2) = elim-eq-done (host_header ext t) _ tt s' e1 in
        Kept-Processed s t s' (is_partial-Kept new_request s t partial prepared) (
          Kept-Processed t u s' (host_header-Kept t u hosted)
            (chosen-Processed (u.method_name == "OPTIONS") partial u s' refl e2))

    proceed-head :
        (s s' : Handler)
        → (s.is_shadow_service_enabled ≡ true → s.method_name ≡ "OPTIONS")
        → Processed s s'
        → heads s'.w ≡ suc (heads s.w)
    unfolding Processed
    proceed-head s s' only_options p = elim (Bool-cases s.is_shadow_service_enabled) [
      | inl on ↦ p.0 (ap (λ m. m == "OPTIONS") (only_options on))
      | inr off ↦ p.1 off
    ]

    process_as-head :
        (left : Bytes → Bytes) (new_request : String → Url → Bool) (result r : Initialized)
        (s t s' : Handler)
        → s.req.method == "options" ≡ false
        → Begun ext left result s t
        → process_as ext src configs new_request rest result t ≡ done (r, s')
        → heads s'.w ≡ suc (heads s.w)
    unfolding process_as Begun Processed
    process_as-head left new_request proceed r s t s' o b e =
        let (_, u, processed, same) =
          elim-eq-done (request_processing ext src configs new_request rest t)
            (λ _ u. done (proceed, u)) r s' e in
        ap (λ k. heads k.1.w) (done-injective (sym same))
        ∙ proceed-head t u b.1 (request_processing-Processed new_request t u processed)
        ∙ ap (λ w. suc (heads w)) b.0
    process_as-head left new_request shadow r s t s' o b e =
        let (_, u, processed, same) =
          elim-eq-done (request_processing ext src configs new_request rest t)
            (λ _ u. done (shadow, u)) r s' e in
        let quiet = (request_processing-Processed new_request t u processed).2 b.0 b.1 in
        ap (λ k. heads k.1.w) (done-injective (sym same)) ∙ ap heads quiet ∙ b.2 o
    process_as-head left new_request service_missing r s t s' o b e =
        ap (λ k. heads k.1.w) (done-injective (sym e)) ∙ ap heads b ∙ heads-head s.w _ _ _
    process_as-head left new_request method_not_allowed r s t s' o b e =
        ap (λ k. heads k.1.w) (done-injective (sym e)) ∙ ap heads b ∙ heads-head s.w _ _ _

    -- If the ICAP method is not "options" in lower case and the handling of a request returns, then
    -- exactly one response head was written for it, whatever the configuration, the service, the mode
    -- and the outcome of the initialization.
    pub to_icapeg_serve-heads :
        (now : ℕ) (left : Bytes → Bytes) (new_request : String → Url → Bool) (s s' : Handler)
        (result : Initialized)
        → s.req.method == "options" ≡ false
        → to_icapeg_serve ext src configs now left new_request rest s ≡ done (result, s')
        → heads s'.w ≡ suc (heads s.w)
    unfolding to_icapeg_serve
    to_icapeg_serve-heads now left new_request s s' result o e =
        let (begun, t, started, e') =
          elim-eq-done (request_initialization ext configs now left s) _ result s' e in
        process_as-head left new_request begun result s t s' o
          (request_initialization-Begun ext left configs now s t begun started) e'
