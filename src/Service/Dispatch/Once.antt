-- ===== src/Service/Dispatch/Once.antt =====
-- A vendor's configuration is loaded once: `doOnce` in the three config.go files.
use icapegclh.Prelude.{String, ◌≡◌, arith}
use icapegclh.Prelude.Outcome.{done}
use icapegclh.Settings.{Source}
use icapegclh.Service.Dispatch.{Configs, init_service_config}
use icapegclh.Service.Echo.Config.{init_echo_config}
use icapegclh.Service.Hashlookup.Config.{init_hashlookup_config}
use icapegclh.Service.Clamav.Config.{init_clamav_config}

-- When a service's configuration has been loaded, loading another service of the same vendor changes
-- nothing, whatever the configuration file then says.
pub init_service_config-once :
    (src src' : Source) (vendor first second : String) (c c' : Configs)
    → init_service_config src vendor first c ≡ done c'
    → init_service_config src' vendor second c' ≡ done c'
unfolding init_service_config init_echo_config init_hashlookup_config init_clamav_config
init_service_config-once src src' vendor first second c c' h = ground arith
