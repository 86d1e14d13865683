-- ===== src/Api/Metadata.antt =====
-- api/icap-request.go: the random text that identifies a request in the logs and in X-ICAP-Metadata.
pub mod Drawn
use Prim.Native.Char.{Char}
use Prim.Native.String.{[] as nil, ◌∷◌ as ◌∷ˢ◌}
use icapegclh.Prelude.{ℕ, zero, suc, String, Option, none, some}
use icapegclh.Prelude.Outcome.{Outcome, done, panicked, ◌>>=◌}
use icapegclh.Consts.{identifier_string, icap_request_id_len}

-- `letterRunes[i]`; `none` is an index that is out of range.
unfoldable pub rune_at : ℕ → String → Option Char
rune_at n nil = none
rune_at zero (c ∷ˢ s) = some c
rune_at (suc n) (c ∷ˢ s) = rune_at n s

-- `len(letterRunes)`
unfoldable pub rune_count : String → ℕ
rune_count nil = 0
rune_count (c ∷ˢ s) = suc (rune_count s)

-- The loop over `name`, from the index `i` on; `intn i n` is the result of the call `rand.Intn(n)` there.
unfoldable pub draw_runes : (intn : ℕ → ℕ → ℕ) (i left : ℕ) → Outcome String
draw_runes intn i zero = done nil
draw_runes intn i (suc left) =
    elim (rune_at (intn i (rune_count identifier_string)) identifier_string) [
      | none ↦ panicked
      | some letter ↦ do rest ← draw_runes intn (suc i) left; done (letter ∷ˢ rest)
    ]

unfoldable pub generate_icap_req_meta_data : (intn : ℕ → ℕ → ℕ) → (size : ℕ) → Outcome String
generate_icap_req_meta_data intn size = draw_runes intn 0 size

-- `xICAPMetadata` of `RequestInitialization`.
unfoldable pub request_meta_data : (intn : ℕ → ℕ → ℕ) → Outcome String
request_meta_data intn = generate_icap_req_meta_data intn icap_request_id_len
