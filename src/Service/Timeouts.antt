-- ===== src/Service/Timeouts.antt =====
-- service/services/clhashlookup and clamav: the timeout that a service is made with.
use icapegclh.Prelude.{
  ℕ, ◌*◌, ◌^◌, ◌≤◌, String, ◌<>◌, ◌≡◌, refl, ◌∙◌, ap, sym, ◌↔◌, none, some, arith,
}
use icapegclh.Prelude.Int.{pos, times_second}
use icapegclh.Prelude.Outcome.{done, done-injective, >>=-eq-done}
use icapegclh.Settings.{Source, read_values_duration}
use icapegclh.Settings.Bounds.{times_second-exact}
use icapegclh.Service.Hashlookup.Config.{Hashlookup, new_hashlookup_service}
use icapegclh.Service.Clamav.Config.{
  Clamav, load_clamav_config, init_clamav_config, new_clamav_service,
}

-- A hash lookup service that is made from a configuration with the timeout n has the timeout n * 10 ^ 9
-- exactly where n is at most 9223372036; a longer one is wrapped to another number.
pub new_hashlookup_service-timeout :
    (config : Hashlookup) (service_name method_name x_icap_metadata : String) (n : ℕ)
    → config.timeout ≡ pos n
    → (service : Hashlookup) × (new_hashlookup_service
          (some config)
          service_name
          method_name
          x_icap_metadata
        ≡ done service)
      × ((service.timeout ≡ pos (n * 10 ^ 9)) ↔ (n ≤ 9223372036))
unfolding new_hashlookup_service
new_hashlookup_service-timeout config service_name method_name x_icap_metadata n t =
    (_, refl, rw t (times_second-exact n))

load_clamav_config-timeout :
    (src : Source) (service_name : String) (config : Clamav) (n : ℕ)
    → read_values_duration src (service_name <> ".timeout") ≡ done (pos n)
    → load_clamav_config src service_name ≡ done config
    → config.timeout ≡ times_second (pos n)
unfolding load_clamav_config
load_clamav_config-timeout src service_name config n t e = ground arith

init-load :
    (src : Source) (service_name : String) (config : Clamav)
    → init_clamav_config src service_name none ≡ done (some config)
    → load_clamav_config src service_name ≡ done config
unfolding init_clamav_config
init-load src service_name config e =
    let (c, loaded, same) = >>=-eq-done (load_clamav_config src service_name) _ e in loaded ∙ cc

twice : (n : ℕ) → n ≤ 9 → times_second (times_second (pos n)) ≡ pos (n * 10 ^ 18)
unfolding times_second
twice n small = ground arith

-- A ClamAV service that is made from a configuration that was loaded with the timeout n, at most 9, has
-- the timeout n * 10 ^ 18, not n * 10 ^ 9: the factor of a second is applied at the loading and again
-- for each service.
pub new_clamav_service-timeout :
    (src : Source) (service_name : String) (config service : Clamav)
    (name method_name x_icap_metadata : String) (n : ℕ)
    → read_values_duration src (service_name <> ".timeout") ≡ done (pos n)
    → init_clamav_config src service_name none ≡ done (some config)
    → new_clamav_service (some config) name method_name x_icap_metadata ≡ done service
    → n ≤ 9
    → service.timeout ≡ pos (n * 10 ^ 18)
unfolding new_clamav_service
new_clamav_service-timeout src service_name config service name method_name x_icap_metadata n t
      loaded made small =
    let multiplied =
      load_clamav_config-timeout src service_name config n t
        (init-load src service_name config loaded) in
    sym (ap (λ (c : Clamav). c.timeout) (done-injective made))
    ∙ ap times_second multiplied
    ∙ twice n small
