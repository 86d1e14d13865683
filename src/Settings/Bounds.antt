-- ===== src/Settings/Bounds.antt =====
-- What is left of a duration that is multiplied by a second.
use icapegclh.Prelude.{ℕ, ◌*◌, ◌^◌, ◌≤◌, ◌≡◌, arith, ◌↔◌}
use icapegclh.Prelude.Int.{pos, times_second}

-- A product with `time.Second` is exact exactly where it fits into 63 bits.
pub times_second-exact : (n : ℕ) → (times_second (pos n) ≡ pos (n * 10 ^ 9)) ↔ (n ≤ 9223372036)
unfolding times_second
times_second-exact n = (λ e. ground arith, λ below. ground arith)
