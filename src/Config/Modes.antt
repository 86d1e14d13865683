-- ===== src/Config/Modes.antt =====
-- What the start-up checks establish of the services' instances, and what the handler relies on.
use mathlib.Core.Path.{subst}
use icapegclh.Prelude.{
  String, true, false, ◌||◌, ◌≡◌, ◌≢◌, refl, none, some, List, [], ◌∷◌, arith, eq_iff,
}
use icapegclh.Prelude.Outcome.{done, >>=-eq-done, done-injective}
use icapegclh.Header.{lookup, insert, lookup-insert}
use icapegclh.Settings.{Source}
use icapegclh.GeneralFunc.Extensions.{in_string_slice}
use icapegclh.Config.{has_mode, ServiceIcapInfo, AppConfig, check_service, check_services, init}

module _ (src : Source) where
  -- A service that passes the checks has a mode.
  check_service-mode :
      (s : String) (info : ServiceIcapInfo)
      → check_service src s ≡ done info
      → (info.req_mode || info.resp_mode) ≡ true
  unfolding check_service has_mode
  check_service-mode s info e = ground arith

  -- A round of the loop that goes on.
  check_services-cons :
      (s : String) (ss : List String) (m m' : List (String × ServiceIcapInfo))
      → check_services src (s ∷ ss) m ≡ done m'
      → (info : ServiceIcapInfo) × (check_service src s ≡ done info)
        × (check_services src ss (insert s info m) ≡ done m')
  unfolding check_services
  check_services-cons s ss m m' e = >>=-eq-done (check_service src s) _ e

  -- Every instance has a mode.
  abbrev pub HasModes : List (String × ServiceIcapInfo) → Type 0
  HasModes m =
      (n : String) (info : ServiceIcapInfo)
      → lookup n m ≡ some info
      → (info.req_mode || info.resp_mode) ≡ true

  insert-HasModes :
      (s : String) (info : ServiceIcapInfo) (m : List (String × ServiceIcapInfo))
      → (info.req_mode || info.resp_mode) ≡ true
      → HasModes m
      → HasModes (insert s info m)
  insert-HasModes s info m mode has n i e =
      ground (arith, mode, has n i, lookup-insert s n info m, e)

  check_services-HasModes :
      (ss : List String) (m m' : List (String × ServiceIcapInfo))
      → HasModes m
      → check_services src ss m ≡ done m'
      → HasModes m'
  unfolding check_services
  check_services-HasModes [] m m' has e = subst HasModes (done-injective e) has
  check_services-HasModes (s ∷ ss) m m' has e =
      let (info, accepted, rest) = check_services-cons s ss m m' e in
      check_services-HasModes ss (insert s info m) m'
        (insert-HasModes s info m (check_service-mode s info accepted) has) rest

  -- Every name has an instance, and those that were there stay.
  check_services-covers :
      (ss : List String) (m m' : List (String × ServiceIcapInfo)) (n : String)
      → (in_string_slice n ss ≡ false → lookup n m ≢ none)
      → check_services src ss m ≡ done m'
      → lookup n m' ≢ none
  unfolding check_services in_string_slice
  check_services-covers [] m m' n covered e =
      subst (λ l. lookup n l ≢ none) (done-injective e) (covered refl)
  check_services-covers (s ∷ ss) m m' n covered e =
      let (info, accepted, rest) = check_services-cons s ss m m' e in
      check_services-covers ss (insert s info m) m' n
        (λ new absent.
          absurd (ground (arith, covered, lookup-insert s n info m, eq_iff n s, eq_iff s n)))
        rest

  -- `init` fills the instances by the loop over its services.
  init-check_services :
      (app : AppConfig)
      → init src ≡ done app
      → check_services src app.services [] ≡ done app.services_instances
  unfolding init
  init-check_services app e = ground arith

  pub init-HasModes : (app : AppConfig) → init src ≡ done app → HasModes app.services_instances
  unfolding lookup
  init-HasModes app e =
      check_services-HasModes app.services [] _ (λ n info none_there. cc)
        (init-check_services app e)

  pub init-covers :
      (app : AppConfig) (n : String)
      → init src ≡ done app
      → in_string_slice n app.services ≡ true
      → lookup n app.services_instances ≢ none
  init-covers app n e listed =
      check_services-covers app.services [] _ n (λ absent. absurd (ground arith))
        (init-check_services app e)
