-- ===== src/GeneralFunc/Headers/Logged.antt =====
-- Which values of a header reach the log.
use text.Mathlib.TextLemmas.{append-nil, nil-append, append_assoc}
use icapegclh.Prelude.{
  ℕ, zero, suc, String, ◌<>◌, ◌≡◌, refl, ap, ◌∙◌, sym, List, [], ◌∷◌, length, nat_eq, false, arith,
  if◌then◌else◌,
}
use icapegclh.Text.{head_or}
use icapegclh.GeneralFunc.Headers.{log_loop, log_values}

-- The texts one after the other, with a separator between them.
unfoldable pub join : String → List String → String
join sep [] = ""
join sep (x ∷ []) = x
join sep (x ∷ y ∷ xs) = x <> (sep <> join sep (y ∷ xs))

unfoldable pub copies : ℕ → String → List String
copies zero x = []
copies (suc n) x = x ∷ copies n x

more_left : (n : ℕ) → nat_eq (suc n) 0 ≡ false
more_left n = ground arith

log_loop-join :
    (first : String) (n : ℕ) (values : String)
    → log_loop first n values ≡ values <> join ", " (copies n first)
unfolding log_loop join copies
log_loop-join first zero values = sym (append-nil values)
log_loop-join first (suc zero) values = refl
log_loop-join first (suc (suc n)) values =
    ap (λ b. log_loop first (suc n) (if b then values <> first else (values <> first) <> ", "))
      (more_left n)
    ∙ log_loop-join first (suc n) ((values <> first) <> ", ")
    ∙ append_assoc (values <> first) ", " (join ", " (copies (suc n) first))
    ∙ append_assoc values first (", " <> join ", " (copies (suc n) first))

-- The logged text of a header is its first value, as often as the header has values, with ", " between
-- the copies, and nothing for a header without values: the further values are not in it.
pub log_values-join :
    (value : List String) → log_values value ≡ join ", " (copies (length value) (head_or "" value))
unfolding log_values
log_values-join value =
    log_loop-join (head_or "" value) (length value) ""
    ∙ nil-append (join ", " (copies (length value) (head_or "" value)))
