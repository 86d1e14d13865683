-- ===== src/Api/Metadata/Drawn.antt =====
-- The random text is there, of the length that is asked for, and of known letters.
use Prim.Native.Char.{Char}
use Prim.Native.String.{[] as nil, ◌∷◌ as ◌∷ˢ◌}
use icapegclh.Prelude.{ℕ, zero, suc, ◌<◌, String, ◌≡◌, refl, some, arith}
use icapegclh.Prelude.Outcome.{done}
use icapegclh.Consts.{identifier_string}
use icapegclh.Api.Metadata.{rune_at, rune_count, draw_runes, generate_icap_req_meta_data}

-- Every rune is one of the letters.
unfoldable pub Drawn : String → String → Type 0
Drawn letters nil = Unit {0}
Drawn letters (c ∷ˢ s) = ((n : ℕ) × (rune_at n letters ≡ some c)) × Drawn letters s

rune_at-some : (n : ℕ) (s : String) → n < rune_count s → (c : Char) × (rune_at n s ≡ some c)
unfolding rune_at rune_count
rune_at-some n nil below = absurd (omega arith)
rune_at-some zero (c ∷ˢ s) below = (c, refl)
rune_at-some (suc n) (c ∷ˢ s) below = rune_at-some n s (omega arith)

has_letters : 0 < rune_count identifier_string
unfolding rune_count
has_letters = omega arith

draw_runes-Drawn :
    (intn : ℕ → ℕ → ℕ) (i left : ℕ)
    → ((k n : ℕ) → 0 < n → intn k n < n)
    → (name : String) × (draw_runes intn i left ≡ done name)
      × (rune_count name ≡ left)
      × Drawn identifier_string name
unfolding draw_runes rune_count Drawn rune_at rune_at-some
draw_runes-Drawn intn i zero below = (nil, refl, refl, tt)
draw_runes-Drawn intn i (suc left) below =
    let at = intn i (rune_count identifier_string) in
    let (c, found) = rune_at-some at identifier_string (below i _ has_letters) in
    let (name, run, count, letters) = draw_runes-Drawn intn (suc i) left below in
    (c ∷ˢ name, rw (found, run) refl, rw count refl, ((at, found), letters))

-- If `rand.Intn(n)` gives a number below n for every positive n, then the text that identifies a request
-- is generated without an index out of range, has as many runes as are asked for, and each of them is
-- one of the letters.
pub generate_icap_req_meta_data-Drawn :
    (intn : ℕ → ℕ → ℕ) (size : ℕ)
    → ((k n : ℕ) → 0 < n → intn k n < n)
    → (name : String) × (generate_icap_req_meta_data intn size ≡ done name)
      × (rune_count name ≡ size)
      × Drawn identifier_string name
unfolding generate_icap_req_meta_data
generate_icap_req_meta_data-Drawn intn size below = draw_runes-Drawn intn 0 size below
