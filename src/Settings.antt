-- ===== src/Settings.antt =====
-- readValues: a value of config.toml, or of the environment variable that the value names after "$_".
-- viper, `os.Getenv` and the duration parser are the fields of `Source`. A missing value or an
-- unreadable file ends the process, and is `panicked`.
pub mod Numbers
pub mod Environment
pub mod Slices
pub mod Bounds
use Prim.Native.Char.{code}
use Prim.Native.String.{[] as nil, ◌∷◌ as ◌∷ˢ◌}
use text.Mathlib.Text.{starts_with}
use icapegclh.Prelude.{
  ℕ, zero, suc, ◌+◌, ◌-◌, ◌*◌, ◌^◌, String, Bool, ◌&&◌, ◌||◌, ◌≡◌, refl, Option, none, some, List,
  [], ◌∷◌, ltb, leb, nat_eq, ◌==◌, if◌then◌else◌,
}
use icapegclh.Prelude.Int.{ℤ, pos, negsuc}
use icapegclh.Prelude.Outcome.{Outcome, done, panicked, ◌>>=◌}
use icapegclh.Text.{split_char, remove_char, slice_from, slice_init}

pub record Source : Type 0 where
  pub config_reads : Bool  -- viper.ReadInConfig has no error
  pub is_set : String → Bool
  pub get_string : String → String
  pub get_int : String → ℤ
  pub get_bool : String → Bool
  pub get_duration : String → ℤ
  pub get_string_slice : String → List String
  pub getenv : String → String
  pub parse_duration : String → ℤ  -- str2duration, error dropped

parse_digits : ℕ → String → Option ℕ
parse_digits acc nil = some acc
parse_digits acc (c ∷ˢ s) =
    let rest = parse_digits (acc * 10 + (code c - 48)) s in
    if leb b'0' (code c) && leb (code c) b'9' then rest else none

-- The digits of a number that has a digit.
magnitude : String → Option ℕ
magnitude nil = none
magnitude (c ∷ˢ s) = parse_digits 0 (c ∷ˢ s)

abbrev clamp_int : ℕ → ℤ
clamp_int n = if ltb n (2 ^ 63) then pos n else pos (2 ^ 63 - 1)

abbrev clamp_negative : ℕ → ℤ
clamp_negative zero = pos 0
clamp_negative (suc n) = if ltb n (2 ^ 63) then negsuc n else negsuc (2 ^ 63 - 1)

abbrev or_zero : (ℕ → ℤ) → Option ℕ → ℤ
or_zero sign none = pos 0
or_zero sign (some n) = sign n

-- `result, _ := strconv.Atoi(s)`: 0 where there is no number, the nearest `int` out of range.
unfoldable pub atoi : String → ℤ
unfolding magnitude parse_digits
atoi nil = pos 0
atoi (c ∷ˢ s) =
    if nat_eq (code c) b'-'
    then or_zero clamp_negative (magnitude s)
    else if nat_eq (code c) b'+'
    then or_zero clamp_int (magnitude s)
    else or_zero clamp_int (magnitude (c ∷ˢ s))

-- `result, _ := strconv.ParseBool(s)`
unfoldable pub parse_bool : String → Bool
parse_bool s = s == "1" || s == "t" || s == "T" || s == "true" || s == "TRUE" || s == "True"

-- The assignments to the first and the last element; an empty text there is out of range.
drop_first : List String → Outcome (List String)
drop_first [] = panicked
drop_first (s ∷ ss) = elim (slice_from 1 s) [ none ↦ panicked | some r ↦ done (r ∷ ss) ]

drop_last : List String → Outcome (List String)
drop_last [] = panicked
drop_last (s ∷ []) = elim (slice_init s) [ none ↦ panicked | some r ↦ done (r ∷ []) ]
drop_last (s ∷ t ∷ ss) = do rest ← drop_last (t ∷ ss); done (s ∷ rest)

module _ (src : Source) where
  unfoldable pub read_int_from_env : String → ℤ
  read_int_from_env var_name = atoi (src.getenv var_name)

  unfoldable pub read_string_from_env : String → String
  read_string_from_env var_name = src.getenv var_name

  unfoldable pub read_bool_from_env : String → Bool
  read_bool_from_env var_name = parse_bool (src.getenv var_name)

  unfoldable pub read_duration_from_env : String → ℤ
  read_duration_from_env var_name = src.parse_duration (src.getenv var_name)

  unfoldable pub read_slice_from_env : String → Outcome (List String)
  unfolding drop_first drop_last
  read_slice_from_env var_name = do
    let plain = remove_char b'"' (remove_char b' ' (src.getenv var_name))
    arr ← drop_first (split_char b',' plain)
    drop_last arr

  -- The text after "$_" where the value of `var_name` starts with it.
  unfoldable pub env_name : String → Option String
  env_name var_name =
      let temp_name = src.get_string var_name in
      if starts_with temp_name "$_" then slice_from 2 temp_name else none

  -- What the five functions share: `ReadInConfig`, the test for "$_", the test `IsSet`.
  unfoldable pub read_value {ℓ} :
      {A : Type ℓ} → (String → Outcome A) → (String → A) → String → Outcome A
  unfolding env_name
  read_value from_env from_config var_name =
      if src.config_reads
      then elim (env_name var_name) [
        | some env ↦ from_env env
        | none ↦ if src.is_set var_name then done (from_config var_name) else panicked
      ]
      else panicked

  unfoldable pub read_values_int : String → Outcome ℤ
  unfolding read_value
  read_values_int = read_value (λ v. done (read_int_from_env v)) src.get_int

  unfoldable pub read_values_string : String → Outcome String
  unfolding read_value
  read_values_string = read_value (λ v. done (read_string_from_env v)) src.get_string

  unfoldable pub read_values_bool : String → Outcome Bool
  unfolding read_value
  read_values_bool = read_value (λ v. done (read_bool_from_env v)) src.get_bool

  unfoldable pub read_values_duration : String → Outcome ℤ
  unfolding read_value
  read_values_duration = read_value (λ v. done (read_duration_from_env v)) src.get_duration

  unfoldable pub read_values_slice : String → Outcome (List String)
  unfolding read_value
  read_values_slice = read_value read_slice_from_env src.get_string_slice

  unfoldable pub is_sec_exists : String → Bool
  is_sec_exists var_name = src.is_set var_name

atoi_tests :
    (atoi "1024" ≡ pos 1024)
    × (atoi "-5" ≡ negsuc 4)
    × (atoi "12x" ≡ pos 0)
    × (atoi "99999999999999999999" ≡ pos 9223372036854775807)
unfolding atoi
atoi_tests = (refl, refl, refl, refl)
