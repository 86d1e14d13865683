-- ===== src/Api/Initialization/Outcomes.antt =====
-- What `RequestInitialization` has written when it returns.
use mathlib.Core.Path.{sym}
use icapegclh.Prelude.{
  ℕ, suc, ◌||◌, String, Bool, true, false, ◌≡◌, refl, ◌∙◌, eq_iff, ap, Option, none, some, List, [],
  ◌∷◌, ◌++◌, arith, ◌==◌, if◌then◌else◌,
}
use icapegclh.Prelude.Outcome.{Outcome, done}
use icapegclh.FormPart.{Bytes}
use icapegclh.Http.{Message, nil_message}
use icapegclh.External.{External}
use icapegclh.Exchange.Ensures.{elim-eq-done}
use icapegclh.Service.Dispatch.{Configs, Service, get_service, istag_value}
use icapegclh.Config.{ServiceIcapInfo}
use icapegclh.Api.Handler.{Handler, Written, head, chunk, the_instance, lift, pure, write, ◌>>◌}
use icapegclh.Api.Initialization.{
  Initialized, proceed, service_missing, method_not_allowed, shadow, is_service_exists,
  is_method_allowed, shadow_service, adding_istag_service_headers, choose_mode, with_service,
  is_204_allowed, enter_service, name_in_url, check_method, request_initialization,
}

-- How often a head is written.
pub heads : List Written → ℕ
heads [] = 0
heads (head _ _ _ ∷ w) = suc (heads w)
heads (chunk _ ∷ w) = heads w

pub heads-head :
    (w : List Written) (code : ℕ) (m : Message) (b : Bool)
    → heads (w ++ head code m b ∷ []) ≡ suc (heads w)
unfolding heads
heads-head [] code m b = refl
heads-head (head _ _ _ ∷ w) code m b = ap suc (heads-head w code m b)
heads-head (chunk _ ∷ w) code m b = heads-head w code m b

heads-chunk : (w : List Written) (b : Bytes) → heads (w ++ chunk b ∷ []) ≡ heads w
unfolding heads
heads-chunk [] b = refl
heads-chunk (head _ _ _ ∷ w) b = ap suc (heads-chunk w b)
heads-chunk (chunk _ ∷ w) b = heads-chunk w b

-- The method of a message.
abbrev is_mod : String → Bool
is_mod m = m == "REQMOD" || m == "RESPMOD"

module _ (ext : External) (left : Bytes → Bytes) where
  shadow_service-head :
      (s s' : Handler)
      → shadow_service ext left s ≡ done (tt, s')
      → is_mod s.req.method ≡ true
      → heads s'.w ≡ suc (heads s.w)
  unfolding shadow_service
  shadow_service-head s s' e m = grind (arith, heads-head, heads-chunk)

  shadow_service-keeps :
      (s s' : Handler)
      → shadow_service ext left s ≡ done (tt, s')
      → (s'.is_shadow_service_enabled ≡ s.is_shadow_service_enabled)
        × (s'.method_name ≡ s.method_name)
  unfolding shadow_service
  shadow_service-keeps s s' e = (ground arith, ground arith)

  -- For each result of the last stages what was written, and the mode that is set.
  Entered : Initialized → Handler → Handler → Type 0
  Entered proceed s s' =
      (s'.w ≡ s.w)
      × (s'.is_shadow_service_enabled ≡ true → s.method_name ≡ "OPTIONS")
      × (s'.method_name ≡ s.method_name)
  Entered shadow s s' =
      (s.method_name == "OPTIONS" ≡ false)
      × (s'.method_name ≡ s.method_name)
      × (s'.is_shadow_service_enabled ≡ true)
      × (is_mod s.req.method ≡ true → heads s'.w ≡ suc (heads s.w))
  Entered _ s s' = ⊥

  -- What the steps before leave alone.
  record Same (s t : Handler) : Type 0 where
    w : t.w ≡ s.w
    method_name : t.method_name ≡ s.method_name
    method : t.req.method ≡ s.req.method

  Same-Entered : (s t s' : Handler) (r : Initialized) → Same s t → Entered r t s' → Entered r s s'
  unfolding Entered
  Same-Entered s t s' proceed same e = ground (arith, same.w, same.method_name, e)
  Same-Entered s t s' service_missing same e = e
  Same-Entered s t s' method_not_allowed same e = e
  Same-Entered s t s' shadow same e = (
    ground (arith, same.method_name, e.0),
    e.1 ∙ same.method_name,
    e.2,
    λ m. e.3 (ap is_mod same.method ∙ m) ∙ ap (λ w. suc (heads w)) same.w,
  )

  choose_mode-Entered :
      (info : ServiceIcapInfo) (s s' : Handler) (result : Initialized)
      → choose_mode ext left info s ≡ done (result, s')
      → Entered result s s'
  unfolding choose_mode Entered
  choose_mode-Entered info s s' proceed e = ground (arith, eq_iff s.method_name "OPTIONS")
  choose_mode-Entered info s s' service_missing e = ground arith
  choose_mode-Entered info s s' method_not_allowed e = ground arith
  choose_mode-Entered info s s' shadow e =
      let (_, t, shadowed, e') =
        elim-eq-done
          (shadow_service ext left (record s {
            is_204_allowed = is_204_allowed ext s.req.header;
            is_shadow_service_enabled = info.shadow_service;
          }))
          (λ _ t. done (shadow, t)) shadow s' (ground arith) in
      (
        ground arith,
        ground (arith, (shadow_service-keeps _ t shadowed).1, e'),
        ground (arith, (shadow_service-keeps _ t shadowed).0, e'),
        λ m. ground (arith, shadow_service-head _ t shadowed m, e'),
      )

  adding_istag-Same :
      (istag : String) (s s' : Handler)
      → adding_istag_service_headers ext istag s ≡ done (tt, s')
      → Same s s'
  unfolding adding_istag_service_headers
  adding_istag-Same istag s s' e = record {
    w = ground arith;
    method_name = ground arith;
    method = ground arith;
  }

  with_service-Entered :
      (now : ℕ) (info : ServiceIcapInfo) (required : Option Service) (s s' : Handler)
      (result : Initialized)
      → with_service ext now left info required s ≡ done (result, s')
      → Entered result s s'
  unfolding with_service
  with_service-Entered now info none s s' result e = cc
  with_service-Entered now info (some service) s s' result e =
      let (_, t, added, e') =
        elim-eq-done (adding_istag_service_headers ext (istag_value now) s)
          (λ _ t. choose_mode ext left info t) result s' e in
      Same-Entered s t s' result (adding_istag-Same _ s t added)
        (choose_mode-Entered info t s' result e')

  get_service-Same :
      (o : Outcome (Option Service)) (vendor : String) (s t u : Handler) (info : ServiceIcapInfo)
      (required : Option Service)
      → the_instance s ≡ done (info, t)
      → lift o (record t { vendor = vendor }) ≡ done (required, u)
      → Same s u
  get_service-Same o vendor s t u info required found got = record {
    w = ground arith;
    method_name = ground arith;
    method = ground arith;
  }

  enter_service-Entered :
      (configs : Configs) (now : ℕ) (s s' : Handler) (result : Initialized)
      → enter_service ext configs now left s ≡ done (result, s')
      → Entered result s s'
  unfolding enter_service
  enter_service-Entered configs now s s' result e =
      let (info, t, found, e1) = elim-eq-done (the_instance s) _ result s' e in
      let (required, u, got, e2) =
        elim-eq-done
          (lift (get_service configs info.vendor t.service_name t.method_name t.x_icap_metadata)
            (record t { vendor = info.vendor }))
          _ result s' e1 in
      Same-Entered s u s' result (get_service-Same _ _ s t u info required found got)
        (with_service-Entered now info required u s' result e2)

  -- What a method that is allowed can be.
  allowed-Same :
      (s t : Handler) (allowed : Bool)
      → (if s.method_name == "options" then pure true else is_method_allowed) s ≡ done (allowed, t)
      → Same s t
  unfolding is_method_allowed
  allowed-Same s t allowed e = record {
    w = ground arith;
    method_name = ground arith;
    method = ground arith;
  }

  allowed-is_mod :
      (s t : Handler)
      → (if s.method_name == "options" then pure true else is_method_allowed) s ≡ done (true, t)
      → (s.method_name == "options") ≡ false
      → (s.method_name == "OPTIONS") ≡ false
      → is_mod s.method_name ≡ true
  unfolding is_method_allowed
  allowed-is_mod s t e not_lower not_options = ground (arith)

  -- For each result what was written, and the mode that is set.
  unfoldable pub Begun : Initialized → Handler → Handler → Type 0
  Begun proceed s s' =
      (s'.w ≡ s.w) × (s'.is_shadow_service_enabled ≡ true → s'.method_name ≡ "OPTIONS")
  Begun service_missing s s' = s'.w ≡ s.w ++ head 404 nil_message false ∷ []
  Begun method_not_allowed s s' = s'.w ≡ s.w ++ head 405 nil_message false ∷ []
  Begun shadow s s' =
      (s'.method_name == "OPTIONS" ≡ false)
      × (s'.is_shadow_service_enabled ≡ true)
      × (s.req.method == "options" ≡ false → heads s'.w ≡ suc (heads s.w))

  module _ (configs : Configs) (now : ℕ) where
    after_allowed-Begun :
        (s t s' : Handler) (allowed : Bool) (result : Initialized)
        → (if s.method_name == "options" then pure true else is_method_allowed) s
          ≡ done (allowed, t)
        → s.method_name ≡ s.req.method
        → (if allowed
              then enter_service ext configs now left
              else (do write (head 405 nil_message false); pure method_not_allowed))
            t
          ≡ done (result, s')
        → Begun result s s'
    unfolding Begun Entered
    after_allowed-Begun s t s' false proceed step m e = cc
    after_allowed-Begun s t s' false service_missing step m e = cc
    after_allowed-Begun s t s' false method_not_allowed step m e =
        ground (arith, (allowed-Same s t false step).w, e)
    after_allowed-Begun s t s' false shadow step m e = cc
    after_allowed-Begun s t s' true proceed step m e =
        let entered =
          Same-Entered s t s' proceed (allowed-Same s t true step)
            (enter_service-Entered configs now t s' proceed e) in
        (entered.0, λ on. entered.2 ∙ entered.1 on)
    after_allowed-Begun s t s' true service_missing step m e =
        absurd (enter_service-Entered configs now t s' service_missing e)
    after_allowed-Begun s t s' true method_not_allowed step m e =
        absurd (enter_service-Entered configs now t s' method_not_allowed e)
    after_allowed-Begun s t s' true shadow step m e =
        let entered =
          Same-Entered s t s' shadow (allowed-Same s t true step)
            (enter_service-Entered configs now t s' shadow e) in
        (
          ap (λ k. k == "OPTIONS") entered.1 ∙ entered.0,
          entered.2,
          λ not_lower. entered.3 (
              ap is_mod (sym m)
              ∙ allowed-is_mod s t step (ap (λ k. k == "options") m ∙ not_lower) entered.0),
        )

    name_in_url-same :
        (s t : Handler) (name : String)
        → name_in_url s ≡ done (name, t)
        → (t.w ≡ s.w) × (t.req.method ≡ s.req.method)
    unfolding name_in_url
    name_in_url-same s t name e = ground arith

    Begun-same :
        (r : Initialized) (s t s' : Handler)
        → t.w ≡ s.w
        → t.req.method ≡ s.req.method
        → Begun r t s'
        → Begun r s s'
    unfolding Begun
    Begun-same proceed s t s' w m b = (b.0 ∙ w, b.1)
    Begun-same service_missing s t s' w m b = ground (arith, w, b)
    Begun-same method_not_allowed s t s' w m b = ground (arith, w, b)
    Begun-same shadow s t s' w m b =
        (b.0, b.1, λ n. b.2 (ap (λ k. k == "options") m ∙ n) ∙ ap (λ k. suc (heads k)) w)

    check_method-Begun :
        (s s' : Handler) (result : Initialized)
        → check_method ext configs now left s ≡ done (result, s')
        → Begun result s s'
    unfolding check_method
    check_method-Begun s s' result e =
        let s1 : Handler = record s { method_name = s.req.method } in
        let (allowed, t, step, e') =
          elim-eq-done ((if s1.method_name == "options" then pure true else is_method_allowed) s1) _
            result s' e in
        Begun-same result s s1 s' refl refl
          (after_allowed-Begun s1 t s' allowed result step refl e')

    after_lookup-Begun :
        (exists : Bool) (s s' : Handler) (result : Initialized)
        → (if exists
              then check_method ext configs now left
              else (do write (head 404 nil_message false); pure service_missing))
            s
          ≡ done (result, s')
        → Begun result s s'
    unfolding Begun
    after_lookup-Begun true s s' result e = check_method-Begun s s' result e
    after_lookup-Begun false s s' service_missing e = ground arith
    after_lookup-Begun false s s' proceed e = cc
    after_lookup-Begun false s s' method_not_allowed e = cc
    after_lookup-Begun false s s' shadow e = cc

    -- What `RequestInitialization` has done when it returns, by its result: 404 is written for a missing
    -- service and 405 for a method that is not allowed; without an error nothing is written, and shadow
    -- mode is on only for OPTIONS; for shadow mode the method is not OPTIONS, the mode is on, and one
    -- head is written unless the method is "options" in lower case.
    pub request_initialization-Begun :
        (s s' : Handler) (result : Initialized)
        → request_initialization ext configs now left s ≡ done (result, s')
        → Begun result s s'
    unfolding request_initialization
    request_initialization-Begun s s' result e =
        let (name, t, named, e') = elim-eq-done (name_in_url s) _ result s' e in
        let t1 : Handler = record t { service_name = name } in
        Begun-same result s t1 s' (name_in_url-same s t name named).0
          (name_in_url-same s t name named).1
          (after_lookup-Begun (is_service_exists t1) t1 s' result e')
