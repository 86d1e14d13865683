-- ===== src/Text.antt =====
-- The functions of Go's `strings`, `strconv` and `path` that the program calls, over code points. The
-- slices cut off an ASCII character where the source cuts off a byte: the "/" of a path, the "$_" of a
-- value, the brackets of a list.
use Prim.Native.Char.{Char, code}
use Prim.Native.String.{[] as nil, ◌∷◌ as ◌∷ˢ◌}
use text.Mathlib.Text.{starts_with}
use icapegclh.Prelude.{
  ℕ, zero, suc, ◌+◌, ◌/◌, ◌%◌, String, ◌<>◌, Bool, true, ◌||◌, ◌≡◌, refl, Option, none, some, List,
  [], ◌∷◌, ltb, nat_eq, ◌==◌, if◌then◌else◌,
}
use icapegclh.Prelude.Int.{ℤ, pos, negsuc}

-- `strings.Contains(s, t)`
unfoldable pub contains : String → String → Bool
contains nil t = t == ""
contains (c ∷ˢ s) t = starts_with (c ∷ˢ s) t || contains s t

abbrev pub push_front : Char → List String → List String
push_front c [] = (c ∷ˢ nil) ∷ []
push_front c (w ∷ ws) = (c ∷ˢ w) ∷ ws

-- `strings.Split(s, sep)` for a separator of one character
unfoldable pub split_char : ℕ → String → List String
split_char sep nil = "" ∷ []
split_char sep (c ∷ˢ s) =
    let rest = split_char sep s in if nat_eq (code c) sep then "" ∷ rest else push_front c rest

-- `strings.ReplaceAll(s, old, "")` for an `old` of one character
unfoldable pub remove_char : ℕ → String → String
remove_char old nil = ""
remove_char old (c ∷ˢ s) =
    let rest = remove_char old s in if nat_eq (code c) old then rest else (c ∷ˢ rest)

-- `s[n:]`; `none` is a slice that is out of range
unfoldable pub slice_from : ℕ → String → Option String
slice_from zero s = some s
slice_from (suc n) nil = none
slice_from (suc n) (c ∷ˢ s) = slice_from n s

utf8_length : ℕ → ℕ
utf8_length c = if ltb c 128 then 1 else if ltb c 2048 then 2 else if ltb c 65536 then 3 else 4

-- `len(s)`: the bytes of the text in UTF-8
unfoldable pub byte_length : String → ℕ
unfolding utf8_length
byte_length nil = 0
byte_length (c ∷ˢ s) = utf8_length (code c) + byte_length s

-- `s[0 : len(s)-1]`
unfoldable pub slice_init : String → Option String
slice_init nil = none
slice_init (c ∷ˢ nil) = some ""
slice_init (c ∷ˢ (d ∷ˢ s)) = elim (slice_init (d ∷ˢ s)) [ none ↦ none | some r ↦ some (c ∷ˢ r) ]

module _ {ℓ} {A : Type ℓ} where
  abbrev pub head_or : A → List A → A
  head_or d [] = d
  head_or d (x ∷ xs) = x

  abbrev pub last_or : A → List A → A
  last_or d [] = d
  last_or d (x ∷ xs) = last_or x xs

last_nonempty : Option String → List String → Option String
last_nonempty found [] = found
last_nonempty found (w ∷ ws) = last_nonempty (if w == "" then found else some w) ws

-- `path.Base(p)`
unfoldable pub path_base : String → String
unfolding split_char last_nonempty
path_base p =
    if p == ""
    then "."
    else elim (last_nonempty none (split_char b'/' p)) [ none ↦ "/" | some w ↦ w ]

unfoldable pub digit : ℕ → String
digit n =
    if nat_eq n 0
    then "0"
    else if nat_eq n 1
    then "1"
    else if nat_eq n 2
    then "2"
    else if nat_eq n 3
    then "3"
    else if nat_eq n 4
    then "4"
    else if nat_eq n 5
    then "5"
    else if nat_eq n 6
    then "6"
    else if nat_eq n 7
    then "7"
    else if nat_eq n 8
    then "8"
    else "9"

unfoldable pub itoa_from : ℕ → ℕ → String
itoa_from zero n = ""
itoa_from (suc fuel) n =
    let rest = itoa_from fuel (n / 10) in if ltb n 10 then digit n else rest <> digit (n % 10)

-- `strconv.Itoa(n)` of a number that is not negative; a number has at most as many digits as its value
-- plus one
unfoldable pub itoa : ℕ → String
unfolding itoa_from digit
itoa n = itoa_from (suc n) n

-- `strconv.Itoa`
unfoldable pub itoa_int : ℤ → String
unfolding itoa
itoa_int (pos n) = itoa n
itoa_int (negsuc n) = "-" <> itoa (suc n)

text_tests :
    (split_char b'.' "a.tar.gz" ≡ "a" ∷ "tar" ∷ "gz" ∷ [])
    × (contains "204, 206" "204" ≡ true)
    × (path_base "/a/b.pdf/" ≡ "b.pdf")
    × (path_base "//" ≡ "/")
    × (slice_from 2 "$_HOME" ≡ some "HOME")
    × (slice_init "x]" ≡ some "x")
    × (itoa 1204 ≡ "1204")
unfolding split_char contains path_base slice_from slice_init itoa
text_tests = (refl, refl, refl, refl, refl, refl, refl)
