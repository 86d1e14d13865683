-- ===== src/Api/Serving/Methods.antt =====
-- The OPTIONS answer after a start-up that succeeded.
use icapegclh.Prelude.{
  String, ◌<>◌, if◌then◌else◌, Bool, true, false, ◌||◌, ◌≡◌, refl, some, Option-cases, inl, inr,
}
use icapegclh.Prelude.Outcome.{done, panicked}
use icapegclh.Header.{lookup}
use icapegclh.Settings.{Source}
use icapegclh.GeneralFunc.Extensions.{in_string_slice}
use icapegclh.Config.{ServiceIcapInfo, AppConfig, init}
use icapegclh.Config.Modes.{init-HasModes, init-covers}
use icapegclh.Api.Serving.{get_enabled_methods}

-- The methods of an instance with a mode are listed.
get_enabled_methods-done :
    (info : ServiceIcapInfo)
    → (info.req_mode || info.resp_mode) ≡ true
    → (methods : String) × (get_enabled_methods info ≡ done methods)
unfolding get_enabled_methods
get_enabled_methods-done info mode = go info.resp_mode info.req_mode mode
  where
    go :
        (resp req : Bool)
        → (req || resp) ≡ true
        → (methods : String) × ((if resp
              then (if req then done ("RESPMOD" <> (", " <> "REQMOD")) else done "RESPMOD")
              else if req
              then done "REQMOD"
              else panicked)
            ≡ done methods)
    go true true h = (_, refl)
    go true false h = (_, refl)
    go false true h = (_, refl)
    go false false h = cc

-- If the start-up succeeds, then every configured service has an instance, and the list of its
-- methods can be built without a panic.
pub init-get_enabled_methods :
    (src : Source) (app : AppConfig) (n : String)
    → init src ≡ done app
    → in_string_slice n app.services ≡ true
    → (info : ServiceIcapInfo) × (methods : String) × (lookup n app.services_instances ≡ some info)
      × (get_enabled_methods info ≡ done methods)
init-get_enabled_methods src app n e listed =
    elim (Option-cases (lookup n app.services_instances)) [
      | inl absent ↦ absurd (init-covers src app n e listed absent)
      | inr (info, found) ↦
          let (methods, built) =
            get_enabled_methods-done info (init-HasModes src app e n info found) in
          (info, methods, found, built)
    ]
