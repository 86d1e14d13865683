-- ===== src/Service/Clamav/Config.antt =====
-- service/services/clamav/config.go: the configuration, loaded once, and its instances.
use icapegclh.Prelude.{String, ◌<>◌, Bool, Option, none, some, List}
use icapegclh.Prelude.Int.{ℤ, times_second}
use icapegclh.Prelude.Outcome.{Outcome, done, panicked, ◌>>=◌}
use icapegclh.Extension.{Extension, init_exts_arr}
use icapegclh.Settings.{
  Source, read_values_int, read_values_string, read_values_bool, read_values_duration,
  read_values_slice, read_bool_from_env,
}

abbrev pub clamav_mal_status : String
clamav_mal_status = "FOUND"

-- The message and `generalFunc` are the state and the arguments of the functions; the ICAP headers are
-- an argument of `processing`.
pub record Clamav : Type 0 where
  pub x_icap_metadata : String
  pub service_name : String
  pub method_name : String
  pub max_file_size : ℤ
  pub bypass_exts : List String
  pub process_exts : List String
  pub reject_exts : List String
  pub ext_arrs : List Extension
  pub socket_path : String
  pub timeout : ℤ
  pub return_orig_if_max_size_exc : Bool
  pub return_400_if_file_ext_rejected : Bool
  pub bypass_on_api_error : Bool
  pub verify_server_cert : Bool
  pub file_hash : String
  pub case_block_http_response_code : ℤ
  pub case_block_http_body : Bool
  pub exception_page : String

unfoldable pub load_clamav_config : Source → String → Outcome Clamav
load_clamav_config src service_name = do
  max ← read_values_int src (service_name <> ".max_filesize")
  bypass ← read_values_slice src (service_name <> ".bypass_extensions")
  process ← read_values_slice src (service_name <> ".process_extensions")
  reject ← read_values_slice src (service_name <> ".reject_extensions")
  path ← read_values_string src (service_name <> ".socket_path")
  timeout ← read_values_duration src (service_name <> ".timeout")
  orig ← read_values_bool src (service_name <> ".return_original_if_max_file_size_exceeded")
  bad ← read_values_bool src (service_name <> ".return_400_if_file_ext_rejected")
  let bypass_on_error = read_bool_from_env src (service_name <> ".bypass_on_api_error")
  verify ← read_values_bool src (service_name <> ".verify_server_cert")
  code ← read_values_int src (service_name <> ".http_exception_response_code")
  has_body ← read_values_bool src (service_name <> ".http_exception_has_body")
  page ← read_values_string src (service_name <> ".exception_page")
  done (record {
    x_icap_metadata = "";
    service_name = "";
    method_name = "";
    max_file_size = max;
    bypass_exts = bypass;
    process_exts = process;
    reject_exts = reject;
    ext_arrs = init_exts_arr process reject bypass;
    socket_path = path;
    timeout = times_second timeout;
    return_orig_if_max_size_exc = orig;
    return_400_if_file_ext_rejected = bad;
    bypass_on_api_error = bypass_on_error;
    verify_server_cert = verify;
    file_hash = "";
    case_block_http_response_code = code;
    case_block_http_body = has_body;
    exception_page = page;
  })

-- `doOnce.Do`: `none` until the first call.
unfoldable pub init_clamav_config : Source → String → Option Clamav → Outcome (Option Clamav)
unfolding load_clamav_config
init_clamav_config src service_name (some config) = done (some config)
init_clamav_config src service_name none = do
  config ← load_clamav_config src service_name
  done (some config)

-- A configuration that was not loaded is a nil pointer.
unfoldable pub new_clamav_service :
    Option Clamav → (service_name method_name x_icap_metadata : String) → Outcome Clamav
new_clamav_service none service_name method_name x_icap_metadata = panicked
new_clamav_service (some config) service_name method_name x_icap_metadata = done (record config {
  service_name = service_name;
  method_name = method_name;
  x_icap_metadata = x_icap_metadata;
  timeout = times_second config.timeout;
})
