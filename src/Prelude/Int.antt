-- ===== src/Prelude/Int.antt =====
-- Go's `int` as an integer: `negsuc n` is -(n + 1).
use Prim.Native.Nat.{ℕ, zero, suc, ◌-◌, ◌*◌, ◌%◌, ◌^◌, compare, Ordering}
use mathlib.Core.Bool.{Bool, true, false}

pub data ℤ : Type 0 where
  pos : ℕ → ℤ
  negsuc : ℕ → ℤ

abbrev pub is_negative : ℤ → Bool
is_negative (pos n) = false
is_negative (negsuc n) = true

abbrev pub is_zero : ℤ → Bool
is_zero (pos zero) = true
is_zero (pos (suc n)) = false
is_zero (negsuc n) = false

-- `a < n` for a length `n`
abbrev pub lt_length : ℤ → ℕ → Bool
lt_length (pos a) n = elim (compare a n) [ Ordering.lt ↦ true | _ ↦ false ]
lt_length (negsuc a) n = true

-- An `int64` from a magnitude, wrapped to 64 bits.
abbrev wrap : ℕ → ℤ
wrap n =
    let r = n % 2 ^ 64 in
    elim (compare r (2 ^ 63)) [ Ordering.lt ↦ pos r | _ ↦ negsuc (2 ^ 64 - 1 - r) ]

abbrev wrap_negative : ℕ → ℤ
wrap_negative n = wrap (2 ^ 64 - n % 2 ^ 64)

-- `d * time.Second` on 64-bit nanoseconds
unfoldable pub times_second : ℤ → ℤ
times_second (pos n) = wrap (n * 10 ^ 9)
times_second (negsuc n) = wrap_negative (suc n * 10 ^ 9)
