-- ===== src/Service/Dispatch.antt =====
-- service/service.go: the services by vendor, and the configurations that the process holds.
pub mod Once
use icapegclh.Prelude.{ℕ, String, ◌<>◌, Bool, Option, none, some, ◌==◌, if◌then◌else◌}
use icapegclh.Prelude.Outcome.{Outcome, done, ◌>>=◌}
use icapegclh.Text.{itoa}
use icapegclh.Header.{Header}
use icapegclh.External.{External}
use icapegclh.Settings.{Source}
use icapegclh.Exchange.{M}
use icapegclh.Service.Reply.{Reply}
use icapegclh.Service.Echo
use icapegclh.Service.Echo.Config.{Echo, init_echo_config, new_echo_service}
use icapegclh.Service.Hashlookup
use icapegclh.Service.Hashlookup.Config.{Hashlookup, init_hashlookup_config, new_hashlookup_service}
use icapegclh.Service.Clamav
use icapegclh.Service.Clamav.Config.{Clamav, init_clamav_config, new_clamav_service}

abbrev pub vendor_echo : String
vendor_echo = "echo"

abbrev pub vendor_clamav : String
vendor_clamav = "clamav"

abbrev pub vendor_hashlookup : String
vendor_hashlookup = "clhashlookup"

-- The types that implement the interface `Service`.
pub data Service : Type 0 where
  echo : Echo → Service
  hashlookup : Hashlookup → Service
  clamav : Clamav → Service

-- The package variables `echoConfig`, `HashLookupConfig` and `clamavConfig`; `none` is nil.
pub record Configs : Type 0 where
  pub echo_config : Option Echo
  pub hashlookup_config : Option Hashlookup
  pub clamav_config : Option Clamav

-- `GetService`; `none` is a nil interface.
unfoldable pub get_service :
    Configs → (vendor service_name method_name x_icap_metadata : String) → Outcome (Option Service)
get_service c vendor service_name method_name x_icap_metadata =
    if vendor == vendor_echo
    then (do
      e ← new_echo_service c.echo_config service_name method_name x_icap_metadata
      done (some (echo e)))
    else if vendor == vendor_hashlookup
    then (do
      h ← new_hashlookup_service c.hashlookup_config service_name method_name x_icap_metadata
      done (some (hashlookup h)))
    else if vendor == vendor_clamav
    then (do
      v ← new_clamav_service c.clamav_config service_name method_name x_icap_metadata
      done (some (clamav v)))
    else done none

unfoldable pub init_service_config :
    Source → (vendor service_name : String) → Configs → Outcome Configs
init_service_config src vendor service_name c =
    if vendor == vendor_echo
    then (do
      e ← init_echo_config src service_name c.echo_config
      done (record c { echo_config = e }))
    else if vendor == vendor_hashlookup
    then (do
      h ← init_hashlookup_config src service_name c.hashlookup_config
      done (record c { hashlookup_config = h }))
    else if vendor == vendor_clamav
    then (do
      v ← init_clamav_config src service_name c.clamav_config
      done (record c { clamav_config = v }))
    else done c

-- `Processing` of a service.
unfoldable pub processing : External → Source → Service → Bool → Header → M Reply
processing ext src (echo e) partial icap_header = Echo.processing ext src e partial icap_header
processing ext src (hashlookup h) partial icap_header =
    Hashlookup.processing ext src h partial icap_header
processing ext src (clamav c) partial icap_header = Clamav.processing ext src c partial icap_header

-- `ISTagValue`, the same in every service, at a Unix time.
unfoldable pub istag_value : ℕ → String
istag_value now = "epoch-" <> itoa now
