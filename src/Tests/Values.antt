-- ===== src/Tests/Values.antt =====
-- Values of the configuration, and the texts they come from.
use icapegclh.Prelude.{
  ◌-◌, ℕ, ◌*◌, ◌^◌, ◌≤◌, ◌<◌, String, ◌<>◌, true, false, ◌≡◌, ◌≢◌, refl, ◌↔◌, none, some, [], ◌∷◌,
  arith,
}
use icapegclh.Prelude.Int.{pos, times_second}
use icapegclh.Prelude.Outcome.{done}
use icapegclh.Consts.{identifier_string}
use icapegclh.Text.{itoa}
use icapegclh.Settings
use icapegclh.Settings.{Source, read_values_int, read_values_slice, read_values_duration}
use icapegclh.Settings.Slices.{joined, IsWord, Lacks}
use icapegclh.Settings.Environment.{read_values_int-itoa, read_values_slice-joined}
use icapegclh.Extension.{init_exts_arr}
use icapegclh.Config.{ServiceIcapInfo, check_lists}
use icapegclh.Config.Accepted.{Accepted}
use icapegclh.Config.Exactly.{NoRepeat, check_lists_iff}
use icapegclh.Service.Hashlookup.Config.{Hashlookup, new_hashlookup_service}
use icapegclh.Service.Clamav.Config.{
  Clamav, init_clamav_config, new_clamav_service, load_clamav_config,
}
use icapegclh.Service.Timeouts.{new_hashlookup_service-timeout, new_clamav_service-timeout}
use icapegclh.Api.Metadata.{generate_icap_req_meta_data, rune_count}
use icapegclh.Api.Metadata.Drawn.{Drawn, generate_icap_req_meta_data-Drawn}
use icapegclh.Api.Serving.{load_configs}
use icapegclh.Api.Serving.Order.{exchange, load_configs-Reordered}
use icapegclh.Tests.{source}
use icapegclh.Tests.Startup.{no_configs}
use icapegclh.Tests.Services.{hash_service}

-- A value that names the variable LIMIT.
abbrev with_variable : Source
with_variable = record source { get_string = λ _. "$_" <> "LIMIT"; getenv = λ _. itoa 1344 }

read_values_int-itoa_example : read_values_int with_variable "filter.max_filesize" ≡ done (pos 1344)
read_values_int-itoa_example =
    read_values_int-itoa with_variable "filter.max_filesize" "LIMIT" refl refl 1344 (omega arith)
      refl

abbrev listing : Source
listing = record source {
  get_string = λ _. "$_" <> "EXTENSIONS";
  getenv = λ _. "[" <> joined "pdf" ("zip" ∷ []);
}

pdf-IsWord : IsWord "pdf"
unfolding Lacks
pdf-IsWord = ((refl, (refl, (refl, tt))), (refl, (refl, (refl, tt))), (refl, (refl, (refl, tt))))

zip-IsWord : IsWord "zip"
unfolding Lacks
zip-IsWord = ((refl, (refl, (refl, tt))), (refl, (refl, (refl, tt))), (refl, (refl, (refl, tt))))

read_values_slice-joined_example :
    read_values_slice listing "filter.process_extensions" ≡ done ("pdf" ∷ "zip" ∷ [])
read_values_slice-joined_example =
    read_values_slice-joined listing "filter.process_extensions" "EXTENSIONS" refl refl "pdf"
      ("zip" ∷ []) pdf-IsWord (zip-IsWord, tt) refl

check_lists_iff_example : (check_lists ("*" ∷ []) ("pdf" ∷ []) [] ≡ done tt) ↔ (
    Accepted ("*" ∷ []) ("pdf" ∷ []) [] × NoRepeat ("*" ∷ []) × NoRepeat ("pdf" ∷ []) × NoRepeat [])
check_lists_iff_example = check_lists_iff ("*" ∷ []) ("pdf" ∷ []) []

new_hashlookup_service-timeout_example :
    (service : Hashlookup) × (new_hashlookup_service (some hash_service) "hash" "RESPMOD" "m"
      ≡ done service)
    × ((service.timeout ≡ pos (5 * 10 ^ 9)) ↔ (5 ≤ 9223372036))
new_hashlookup_service-timeout_example =
    new_hashlookup_service-timeout hash_service "hash" "RESPMOD" "m" 5 refl

-- `rand.Intn` that gives the greatest result.
abbrev intn : ℕ → ℕ → ℕ
intn _ n = n - 1

intn_below : (k n : ℕ) → 0 < n → intn k n < n
intn_below k n positive = omega arith

generate_icap_req_meta_data-Drawn_example :
    (name : String) × (generate_icap_req_meta_data intn 20 ≡ done name)
    × (rune_count name ≡ 20)
    × Drawn identifier_string name
generate_icap_req_meta_data-Drawn_example = generate_icap_req_meta_data-Drawn intn 20 intn_below

abbrev info_of : String → ServiceIcapInfo
info_of vendor = record {
  vendor = vendor;
  service_caption = "";
  service_tag = "";
  req_mode = true;
  resp_mode = true;
  shadow_service = false;
  preview_enabled = false;
  preview_bytes = "0";
}

echo_is_not_clamav : (info_of "echo").vendor ≢ (info_of "clamav").vendor
echo_is_not_clamav h = absurd (cc)

load_configs-Reordered_example :
    load_configs source (("a", info_of "echo") ∷ ("b", info_of "clamav") ∷ []) no_configs
    ≡ load_configs source (("b", info_of "clamav") ∷ ("a", info_of "echo") ∷ []) no_configs
load_configs-Reordered_example =
    load_configs-Reordered source (("a", info_of "echo") ∷ ("b", info_of "clamav") ∷ [])
      (("b", info_of "clamav") ∷ ("a", info_of "echo") ∷ []) no_configs
      (exchange "a" "b" (info_of "echo") (info_of "clamav") [] echo_is_not_clamav)

abbrev scanner : Clamav
scanner = record {
  x_icap_metadata = "";
  service_name = "";
  method_name = "";
  max_file_size = pos 0;
  bypass_exts = "docx" ∷ [];
  process_exts = "docx" ∷ [];
  reject_exts = "docx" ∷ [];
  ext_arrs = init_exts_arr ("docx" ∷ []) ("docx" ∷ []) ("docx" ∷ []);
  socket_path = "text";
  timeout = pos 5000000000;
  return_orig_if_max_size_exc = false;
  return_400_if_file_ext_rejected = false;
  bypass_on_api_error = false;
  verify_server_cert = false;
  file_hash = "";
  case_block_http_response_code = pos 0;
  case_block_http_body = false;
  exception_page = "text";
}

scanner_loads : init_clamav_config source "scan" none ≡ done (some scanner)
unfolding init_clamav_config load_clamav_config Settings.read_values_int Settings.read_values_slice
    Settings.read_values_string read_values_duration Settings.read_values_bool times_second
    Settings.read_bool_from_env Settings.parse_bool
scanner_loads = refl

abbrev scanner_service : Clamav
scanner_service = record scanner {
  service_name = "scan";
  method_name = "RESPMOD";
  x_icap_metadata = "m";
  timeout = pos 5000000000000000000;
}

scanner_made : new_clamav_service (some scanner) "scan" "RESPMOD" "m" ≡ done scanner_service
unfolding new_clamav_service times_second
scanner_made = refl

five_is_read : read_values_duration source ("scan" <> ".timeout") ≡ done (pos 5)
unfolding read_values_duration
five_is_read = refl

new_clamav_service-timeout_example : scanner_service.timeout ≡ pos (5 * 10 ^ 18)
new_clamav_service-timeout_example =
    new_clamav_service-timeout source "scan" scanner scanner_service "scan" "RESPMOD" "m" 5
      five_is_read scanner_loads scanner_made (omega arith)
