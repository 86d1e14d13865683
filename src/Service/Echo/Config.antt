-- ===== src/Service/Echo/Config.antt =====
-- service/services/echo/config.go: the service's configuration, loaded once, and its instances.
use icapegclh.Prelude.{String, ◌<>◌, Bool, Option, none, some, List}
use icapegclh.Prelude.Int.{ℤ}
use icapegclh.Prelude.Outcome.{Outcome, done, panicked, ◌>>=◌}
use icapegclh.Extension.{Extension, init_exts_arr}
use icapegclh.Settings.{Source, read_values_int, read_values_bool, read_values_slice}

abbrev pub echo_identifier : String
echo_identifier = "ECHO ID"

-- The message and `generalFunc` are the state and the arguments of the functions.
pub record Echo : Type 0 where
  pub x_icap_metadata : String
  pub service_name : String
  pub method_name : String
  pub max_file_size : ℤ
  pub bypass_exts : List String
  pub process_exts : List String
  pub reject_exts : List String
  pub ext_arrs : List Extension
  pub return_orig_if_max_size_exc : Bool
  pub return_400_if_file_ext_rejected : Bool

load_echo_config : Source → String → Outcome Echo
load_echo_config src service_name = do
  max ← read_values_int src (service_name <> ".max_filesize")
  bypass ← read_values_slice src (service_name <> ".bypass_extensions")
  process ← read_values_slice src (service_name <> ".process_extensions")
  reject ← read_values_slice src (service_name <> ".reject_extensions")
  orig ← read_values_bool src (service_name <> ".return_original_if_max_file_size_exceeded")
  bad ← read_values_bool src (service_name <> ".return_400_if_file_ext_rejected")
  done (record {
    x_icap_metadata = "";
    service_name = "";
    method_name = "";
    max_file_size = max;
    bypass_exts = bypass;
    process_exts = process;
    reject_exts = reject;
    ext_arrs = init_exts_arr process reject bypass;
    return_orig_if_max_size_exc = orig;
    return_400_if_file_ext_rejected = bad;
  })

-- `doOnce.Do`: `none` until the first call.
unfoldable pub init_echo_config : Source → String → Option Echo → Outcome (Option Echo)
unfolding load_echo_config
init_echo_config src service_name (some config) = done (some config)
init_echo_config src service_name none = do
  config ← load_echo_config src service_name
  done (some config)

-- A configuration that was not loaded is a nil pointer.
unfoldable pub new_echo_service :
    Option Echo → (service_name method_name x_icap_metadata : String) → Outcome Echo
new_echo_service none service_name method_name x_icap_metadata = panicked
new_echo_service (some config) service_name method_name x_icap_metadata = done (record config {
  service_name = service_name;
  method_name = method_name;
  x_icap_metadata = x_icap_metadata;
})
