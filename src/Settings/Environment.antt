-- ===== src/Settings/Environment.antt =====
-- readValues.go: a value of the configuration that names an environment variable.
use Prim.Native.String.{[] as nil, ◌∷◌ as ◌∷ˢ◌}
use text.Mathlib.Text.{starts_with}
use text.Mathlib.TextPositions.{starts_with-append}
use text.Mathlib.TextLemmas.{nil-append, cons-append}
use icapegclh.Prelude.{
  ℕ, ◌^◌, ◌<◌, String, ◌<>◌, true, ◌≡◌, refl, ap, ◌∙◌, none, some, if◌then◌else◌, List, ◌∷◌, All,
}
use icapegclh.Prelude.Int.{pos}
use icapegclh.Prelude.Outcome.{Outcome, done}
use icapegclh.Text.{itoa, slice_from}
use icapegclh.Settings.{
  Source, atoi, env_name, read_value, read_int_from_env, read_values_int, read_values_slice,
  read_slice_from_env,
}
use icapegclh.Settings.Numbers.{atoi-itoa}
use icapegclh.Settings.Slices.{joined, IsWord, read_slice_from_env-joined}

-- The text after "$_".
after_mark : (name : String) → slice_from 2 ("$_" <> name) ≡ some name
unfolding slice_from
after_mark name = ap (slice_from 2) (
    cons-append "$" "_" name
    ∙ ap (λ t. "$" ∷ˢ t) (cons-append "_" nil name ∙ ap (λ t. "_" ∷ˢ t) (nil-append name)))

module _ (src : Source) (var_name name : String) (reads : src.config_reads ≡ true)
    (named : src.get_string var_name ≡ "$_" <> name) where
  named_variable : env_name src var_name ≡ some name
  unfolding env_name
  named_variable =
      ap (λ t. if starts_with t "$_" then slice_from 2 t else none) named
      ∙ ap (λ b. if b then slice_from 2 ("$_" <> name) else none) (starts_with-append "$_" name)
      ∙ after_mark name

  from_variable :
      {A : Type 0} (from_env : String → Outcome A) (from_config : String → A)
      → read_value src from_env from_config var_name ≡ from_env name
  unfolding read_value
  from_variable from_env from_config = rw (reads, named_variable) refl

  -- Where the configuration can be read and a value is "$_" and the name of a variable that holds a
  -- number below 2 ^ 63 as `strconv.Itoa` prints it, the value is read as that number.
  pub read_values_int-itoa :
      (n : ℕ) → n < 2 ^ 63 → src.getenv name ≡ itoa n → read_values_int src var_name ≡ done (pos n)
  unfolding read_values_int read_int_from_env
  read_values_int-itoa n below printed =
      from_variable (λ v. done (read_int_from_env src v)) src.get_int
      ∙ ap (λ t. done (atoi t)) printed
      ∙ ap done (atoi-itoa n below)

  -- Where the configuration can be read and a value is "$_" and the name of a variable that holds a
  -- list of words without commas, quotation marks and spaces, in brackets and with commas between them,
  -- the value is read as that list.
  pub read_values_slice-joined :
      (x : String) (xs : List String)
      → IsWord x
      → All IsWord xs
      → src.getenv name ≡ "[" <> joined x xs
      → read_values_slice src var_name ≡ done (x ∷ xs)
  unfolding read_values_slice
  read_values_slice-joined x xs h hs e =
      from_variable (read_slice_from_env src) src.get_string_slice
      ∙ read_slice_from_env-joined src name x xs h hs e
