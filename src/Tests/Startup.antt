-- ===== src/Tests/Startup.antt =====
-- The start-up on a concrete configuration.
use text.Mathlib.Text.{starts_with}
use icapegclh.Prelude.Int.{pos}
use icapegclh.Prelude.{String, true, false, ◌≡◌, ◌≢◌, ◌⊎◌, refl, none, some, List, [], ◌∷◌, map}
use icapegclh.Prelude.Outcome.{done}
use icapegclh.Header
use icapegclh.Http.{Request}
use icapegclh.Extension.{init_exts_arr}
use icapegclh.Settings
use icapegclh.GeneralFunc.Extensions
use icapegclh.GeneralFunc.Extensions.{decide, reject}
use icapegclh.GeneralFunc.Headers.{log_values}
use icapegclh.GeneralFunc.Headers.Logged.{join, copies, log_values-join}
use icapegclh.Config
use icapegclh.Config.{AppConfig, ServiceIcapInfo, init, check_lists}
use icapegclh.Config.Deciding.{verdict, decide-init_exts_arr}
use icapegclh.ContentTypes
use icapegclh.ContentTypes.{
  parsing_request, multipart, body_after_scanning, get_file_from_request, get_content_type,
  matches_base64, part_write,
}
use icapegclh.ContentTypes.Base64.{IsBase64, Becomes, body_after_scanning-IsBase64}
use icapegclh.ContentTypes.Laws.{body_after_scanning-multipart}
use icapegclh.Api.Serving.{get_enabled_methods}
use icapegclh.Api.Serving.Methods.{init-get_enabled_methods}
use icapegclh.Service.Dispatch.{Configs, init_service_config}
use icapegclh.Service.Dispatch.Once.{init_service_config-once}
use icapegclh.Service.Echo
use icapegclh.Service.Echo.Config.{Echo}
use icapegclh.Tests.{libraries, source, page_request}

abbrev process_list : List String
process_list = "pdf" ∷ "zip" ∷ []

abbrev reject_list : List String
reject_list = "*" ∷ []

abbrev bypass_list : List String
bypass_list = "txt" ∷ []

lists_accepted : check_lists bypass_list process_list reject_list ≡ done tt
unfolding check_lists Config.check_exts Extensions.in_string_slice
lists_accepted = refl

decide-init_exts_arr_example :
    decide "txt" process_list reject_list bypass_list
      (init_exts_arr process_list reject_list bypass_list)
    ≡ verdict "txt" process_list reject_list bypass_list
decide-init_exts_arr_example =
    decide-init_exts_arr "txt" process_list reject_list bypass_list lists_accepted

log_values-join_example : log_values ("a" ∷ "b" ∷ "c" ∷ []) ≡ join ", " (copies 3 "a")
log_values-join_example = log_values-join ("a" ∷ "b" ∷ "c" ∷ [])

abbrev form_request : Request
form_request = record page_request {
  header = ("Content-Type", "multipart/form-data" ∷ []) ∷ [];
  body = 7 ∷ [];
}

form_has_file : (parsing_request libraries form_request).the_file.file_name ≢ ""
unfolding parsing_request ContentTypes.first_file
form_has_file h = cc

body_after_scanning-multipart_example :
    body_after_scanning libraries
      (multipart (parsing_request libraries form_request))
      (get_file_from_request libraries (multipart (parsing_request libraries form_request)))
    ≡ libraries.write_form
        (parsing_request libraries form_request).boundary
        (map part_write (parsing_request libraries form_request).form_parts)
body_after_scanning-multipart_example =
    body_after_scanning-multipart libraries form_request form_has_file

not_a_form :
    starts_with (Header.get libraries.canonical page_request.header "Content-Type") "multipart/"
    ≡ false
unfolding Header.get Header.lookup
not_a_form = refl

not_json :
    starts_with
      (Header.get libraries.canonical page_request.header "Content-Type")
      "application/json"
    ≡ false
unfolding Header.get Header.lookup
not_json = refl

abbrev encoded_request : Request
encoded_request = record page_request { body = b'a' ∷ b'G' ∷ b'k' ∷ b'=' ∷ [] }

body_after_scanning-IsBase64_example :
    (IsBase64 encoded_request.body
      × Becomes libraries encoded_request (libraries.base64_decode encoded_request.body))
    ⊎ ((¬ IsBase64 encoded_request.body) × Becomes libraries encoded_request encoded_request.body)
body_after_scanning-IsBase64_example =
    body_after_scanning-IsBase64 libraries encoded_request not_a_form not_json

abbrev pub filter_info : ServiceIcapInfo
filter_info = record {
  vendor = "echo";
  service_caption = "text";
  service_tag = "text";
  req_mode = false;
  resp_mode = true;
  shadow_service = false;
  preview_enabled = false;
  preview_bytes = "text";
}

abbrev pub started : AppConfig
started = record {
  port = pos 0;
  log_level = "text";
  write_logs_to_console = false;
  debugging_headers = false;
  services = "filter" ∷ [];
  services_instances = ("filter", filter_info) ∷ [];
}

starts : init source ≡ done started
unfolding init Config.check_services Config.check_service check_lists Config.check_exts
    Extensions.in_string_slice Header.insert Header.remove Settings.is_sec_exists
    Settings.read_values_int Settings.read_values_string Settings.read_values_bool
    Settings.read_values_slice Settings.read_value
starts = refl

listed : Extensions.in_string_slice "filter" started.services ≡ true
unfolding Extensions.in_string_slice
listed = refl

init-get_enabled_methods_example :
    (info : ServiceIcapInfo) × (methods : String) × (Header.lookup "filter"
        started.services_instances
      ≡ some info)
    × (get_enabled_methods info ≡ done methods)
init-get_enabled_methods_example = init-get_enabled_methods source started "filter" starts listed

abbrev pub no_configs : Configs
no_configs = record { echo_config = none; hashlookup_config = none; clamav_config = none }

abbrev pub filter_config : Echo
filter_config = record {
  x_icap_metadata = "";
  service_name = "";
  method_name = "";
  max_file_size = pos 0;
  bypass_exts = "*" ∷ [];
  process_exts = "pdf" ∷ [];
  reject_exts = "docx" ∷ [];
  ext_arrs = init_exts_arr ("pdf" ∷ []) ("docx" ∷ []) ("*" ∷ []);
  return_orig_if_max_size_exc = false;
  return_400_if_file_ext_rejected = false;
}

abbrev pub loaded : Configs
loaded = record no_configs { echo_config = some filter_config }

loads : init_service_config source "echo" "filter" no_configs ≡ done loaded
unfolding init_service_config Echo.Config.init_echo_config Settings.read_values_int
    Settings.read_values_bool Settings.read_values_slice Settings.read_value
loads = refl

init_service_config-once_example : init_service_config source "echo" "other" loaded ≡ done loaded
init_service_config-once_example =
    init_service_config-once source source "echo" "filter" "other" no_configs loaded loads
