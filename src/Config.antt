-- ===== src/Config.antt =====
-- config/config.go: the application's configuration, and the checks of it at start-up. A fatal
-- error exits the process, and is `panicked`.
pub mod Accepted
pub mod Exactly
pub mod Deciding
pub mod Modes
use icapegclh.Prelude.{
  ℕ, suc, String, ◌<>◌, Bool, true, false, not, ◌&&◌, ◌||◌, ◌≡◌, refl, Option, none, some, List, [],
  ◌∷◌, nat_eq, ◌==◌, length, if◌then◌else◌,
}
use icapegclh.Prelude.Int.{ℤ, is_negative}
use icapegclh.Prelude.Outcome.{Outcome, done, panicked, ◌>>=◌}
use icapegclh.Header.{insert}
use icapegclh.Settings.{
  Source, read_values_int, read_values_string, read_values_bool, read_values_slice, is_sec_exists,
}
use icapegclh.GeneralFunc.Extensions.{in_string_slice}

pub record ServiceIcapInfo : Type 0 where
  pub vendor : String
  pub service_caption : String
  pub service_tag : String
  pub req_mode : Bool
  pub resp_mode : Bool
  pub shadow_service : Bool
  pub preview_enabled : Bool
  pub preview_bytes : String

-- The fields of `AppConfig` that `Init` fills.
pub record AppConfig : Type 0 where
  pub port : ℤ
  pub log_level : String
  pub write_logs_to_console : Bool
  pub debugging_headers : Bool
  pub services : List String
  pub services_instances : List (String × ServiceIcapInfo)

-- The map `ext` (the keys whose value is true) and the counter of asterisks.
pub record Seen : Type 0 where
  pub exts : List String
  pub asterisks : ℕ

-- One loop over an extension list of `n` elements.
unfoldable pub check_exts : ℕ → List String → Seen → Outcome Seen
check_exts n [] s = done s
check_exts n (x ∷ xs) s =
    let rest = check_exts n xs (record {
      exts = x ∷ s.exts;
      asterisks = if x == "*" then suc s.asterisks else s.asterisks;
    }) in
    if x == "*" && not (nat_eq n 1)
    then panicked
    else if in_string_slice x s.exts
    then panicked
    else rest

-- The three loops, in their order, and the test of the counter.
unfoldable pub check_lists : (bypass process reject : List String) → Outcome (Unit {0})
check_lists bypass process reject = do
  b ← check_exts (length bypass) bypass (record { exts = []; asterisks = 0 })
  p ← check_exts (length process) process b
  r ← check_exts (length reject) reject p
  if nat_eq r.asterisks 1 then done tt else panicked

abbrev guard : Bool → Outcome (Unit {0})
guard true = done tt
guard false = panicked

module _ (src : Source) where
  -- `ReadValuesBool(req_mode) || ReadValuesBool(resp_mode)`, the second only if the first is false
  has_mode : String → Outcome Bool
  has_mode service_name = do
    req ← read_values_bool src (service_name <> ".req_mode")
    if req then done true else read_values_bool src (service_name <> ".resp_mode")

  -- The checks of one service, one round of the loop in `Init`.
  unfoldable pub check_service : String → Outcome ServiceIcapInfo
  unfolding has_mode
  check_service service_name = do
    exists ← guard (is_sec_exists src service_name)
    mode ← has_mode service_name
    some_mode ← guard mode
    max ← read_values_int src (service_name <> ".max_filesize")
    not_negative ← guard (not (is_negative max))
    bypass ← read_values_slice src (service_name <> ".bypass_extensions")
    process ← read_values_slice src (service_name <> ".process_extensions")
    reject ← read_values_slice src (service_name <> ".reject_extensions")
    lists ← check_lists bypass process reject
    vendor ← read_values_string src (service_name <> ".vendor")
    tag ← read_values_string src (service_name <> ".service_tag")
    caption ← read_values_string src (service_name <> ".service_caption")
    req_mode ← read_values_bool src (service_name <> ".req_mode")
    resp_mode ← read_values_bool src (service_name <> ".resp_mode")
    shadow ← read_values_bool src (service_name <> ".shadow_service")
    preview_bytes ← read_values_string src (service_name <> ".preview_bytes")
    preview_enabled ← read_values_bool src (service_name <> ".preview_enabled")
    done (record {
      vendor = vendor;
      service_caption = caption;
      service_tag = tag;
      req_mode = req_mode;
      resp_mode = resp_mode;
      shadow_service = shadow;
      preview_enabled = preview_enabled;
      preview_bytes = preview_bytes;
    })

  -- The loop over the services.
  unfoldable pub check_services :
      List String → List (String × ServiceIcapInfo) → Outcome (List (String × ServiceIcapInfo))
  check_services [] instances = done instances
  check_services (s ∷ ss) instances = do
    info ← check_service s
    check_services ss (insert s info instances)

  unfoldable pub init : Outcome AppConfig
  init = do
    port ← read_values_int src "app.port"
    log_level ← read_values_string src "app.log_level"
    to_console ← read_values_bool src "app.write_logs_to_console"
    debugging ← read_values_bool src "app.debugging_headers"
    services ← read_values_slice src "app.services"
    instances ← check_services services []
    done (record {
      port = port;
      log_level = log_level;
      write_logs_to_console = to_console;
      debugging_headers = debugging;
      services = services;
      services_instances = instances;
    })

check_lists_tests :
    (check_lists ("*" ∷ []) ("pdf" ∷ "zip" ∷ []) ("docx" ∷ []) ≡ done tt)
    × (check_lists ("*" ∷ "exe" ∷ []) ("pdf" ∷ []) [] ≡ panicked)
    × (check_lists ("pdf" ∷ []) ("pdf" ∷ []) ("*" ∷ []) ≡ panicked)
    × (check_lists ("pdf" ∷ []) [] [] ≡ panicked)
unfolding check_lists check_exts in_string_slice
check_lists_tests = (refl, refl, refl, refl)
