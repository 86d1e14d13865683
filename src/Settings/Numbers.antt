-- ===== src/Settings/Numbers.antt =====
-- Numbers in texts: `strconv.Itoa` and `strconv.Atoi`.
use Prim.Native.Char.{code}
use Prim.Native.String.{[] as nil, ◌∷◌ as ◌∷ˢ◌}
use text.Mathlib.TextLemmas.{nil-append, cons-append, append-eq-nil_iff}
use icapegclh.Prelude.{
  ℕ, zero, suc, ◌+◌, ◌-◌, ◌*◌, ◌/◌, ◌%◌, ◌^◌, ◌<◌, String, ◌<>◌, ◌≡◌, ◌≢◌, refl, ap, sym, ◌∙◌,
  Option, none, some, arith, ltb, Bool-cases, inl, inr, if◌then◌else◌,
}
use icapegclh.Prelude.Int.{pos}
use icapegclh.Text.{itoa, itoa_from, digit}
use icapegclh.Settings.{parse_digits, magnitude, atoi}

parse_digits-digit : (a d : ℕ) → d < 10 → parse_digits a (digit d) ≡ some (a * 10 + d)
unfolding parse_digits digit
parse_digits-digit a zero below = refl
parse_digits-digit a (suc zero) below = refl
parse_digits-digit a (suc (suc zero)) below = refl
parse_digits-digit a (suc (suc (suc zero))) below = refl
parse_digits-digit a (suc (suc (suc (suc zero)))) below = refl
parse_digits-digit a (suc (suc (suc (suc (suc zero))))) below = refl
parse_digits-digit a (suc (suc (suc (suc (suc (suc zero)))))) below = refl
parse_digits-digit a (suc (suc (suc (suc (suc (suc (suc zero))))))) below = refl
parse_digits-digit a (suc (suc (suc (suc (suc (suc (suc (suc zero)))))))) below = refl
parse_digits-digit a (suc (suc (suc (suc (suc (suc (suc (suc (suc zero))))))))) below = refl
parse_digits-digit a (suc (suc (suc (suc (suc (suc (suc (suc (suc (suc d)))))))))) below =
    absurd (omega arith)

abbrev go_on : String → Option ℕ → Option ℕ
go_on t none = none
go_on t (some a) = parse_digits a t

parse_digits-append : (a : ℕ) (s t : String) → parse_digits a (s <> t) ≡ go_on t (parse_digits a s)
unfolding parse_digits
parse_digits-append a nil t = rw (nil-append t) refl
parse_digits-append a (c ∷ˢ s) t =
    rw (cons-append c s t) (ground (arith, parse_digits-append (a * 10 + (code c - 48)) s t))

-- The last digit.
parse_digits-last :
    (s : String) (n : ℕ)
    → parse_digits 0 s ≡ some (n / 10)
    → parse_digits 0 (s <> digit (n % 10)) ≡ some n
parse_digits-last s n e =
    parse_digits-append 0 s (digit (n % 10))
    ∙ ap (go_on (digit (n % 10))) e
    ∙ parse_digits-digit (n / 10) (n % 10) (omega arith)
    ∙ ap some (omega arith)

parse_digits-itoa_from : (fuel n : ℕ) → n < fuel → parse_digits 0 (itoa_from fuel n) ≡ some n
unfolding itoa_from
parse_digits-itoa_from zero n below = absurd (omega arith)
parse_digits-itoa_from (suc fuel) n below = elim (Bool-cases (ltb n 10)) [
  | inl small ↦ rw small (parse_digits-digit 0 n (ground arith) ∙ ap some (omega arith))
  | inr large ↦ rw large (
      parse_digits-last (itoa_from fuel (n / 10)) n
        (parse_digits-itoa_from fuel (n / 10) (ground arith)))
]

-- A text that is a number has a digit first.
atoi-magnitude : (s : String) (n : ℕ) → magnitude s ≡ some n → n < 2 ^ 63 → atoi s ≡ pos n
unfolding atoi magnitude parse_digits
atoi-magnitude nil n e below = cc
atoi-magnitude (c ∷ˢ s) n e below = ground arith

magnitude-digits : (s : String) → s ≢ nil → magnitude s ≡ parse_digits 0 s
unfolding magnitude
magnitude-digits nil h = absurd (h refl)
magnitude-digits (c ∷ˢ s) h = refl

digit-nonempty : (d : ℕ) → d < 10 → digit d ≢ nil
unfolding parse_digits
digit-nonempty d below e =
    let read = parse_digits-digit 1 d below in
    let empty : parse_digits 1 (digit d) ≡ some 1 = ap (parse_digits 1) e in
    absurd (ground (arith, read, empty))

itoa-nonempty : (n : ℕ) → itoa n ≢ nil
unfolding itoa itoa_from
itoa-nonempty n e = elim (Bool-cases (ltb n 10)) [
  | inl small ↦
      digit-nonempty n (ground arith)
        (sym (ap (λ b. if b then digit n else itoa_from n (n / 10) <> digit (n % 10)) small) ∙ e)
  | inr large ↦
      let appended =
        sym (ap (λ b. if b then digit n else itoa_from n (n / 10) <> digit (n % 10)) large) ∙ e in
      digit-nonempty (n % 10) (omega arith)
        ((append-eq-nil_iff {p = itoa_from n (n / 10)} {q = digit (n % 10)}).0 appended).1
]

-- A number below 2 ^ 63 that is printed is read back: `strconv.Atoi` of `strconv.Itoa`.
pub atoi-itoa : (n : ℕ) → n < 2 ^ 63 → atoi (itoa n) ≡ pos n
unfolding itoa
atoi-itoa n below =
    atoi-magnitude (itoa n) n
      (magnitude-digits (itoa n) (itoa-nonempty n) ∙ parse_digits-itoa_from (suc n) n (omega arith))
      below
