-- ===== src/Extension.antt =====
-- service/services-utilities/extension.go: the order in which the extension lists are checked.
pub mod Order
use icapegclh.Prelude.{ℕ, suc, String, Bool, false, ◌≡◌, refl, List, [], ◌∷◌, ◌==◌, if◌then◌else◌}
use icapegclh.Consts.{any_ext, process_exts, reject_exts, bypass_exts}

pub record Extension : Type 0 where
  pub name : String
  pub exts : List String

-- `len(exts) == 1 && exts[0] == "*"`
unfoldable pub is_any : List String → Bool
is_any (e ∷ []) = e == any_ext
is_any _ = false

-- `make([]Extension, 3)`: three slots, each a zero value until it is written.
pub record Slots : Type 0 where
  pub first : Extension
  pub second : Extension
  pub third : Extension

abbrev empty_extension : Extension
empty_extension = record { name = ""; exts = [] }

abbrev empty_slots : Slots
empty_slots = record { first = empty_extension; second = empty_extension; third = empty_extension }

-- The loop state: the array and `ind`. An index of 3 or more would panic; `place` is called three
-- times from 0, so the last case is `extArrs[2]`.
abbrev put_at : Slots → ℕ → Extension → Slots
put_at s ℕ.zero e = record s { first = e }
put_at s (suc ℕ.zero) e = record s { second = e }
put_at s _ e = record s { third = e }

place : Slots × ℕ → Extension → Slots × ℕ
place (s, ind) e =
    if is_any e.exts then (record s { third = e }, ind) else (put_at s ind e, suc ind)

abbrev slot_list : Slots → List Extension
slot_list s = s.first ∷ s.second ∷ s.third ∷ []

unfoldable pub init_exts_arr : List String → List String → List String → List Extension
unfolding place is_any
init_exts_arr process reject bypass =
    let start : Slots × ℕ = (empty_slots, 0) in
    let p = place start (record { name = process_exts; exts = process }) in
    let r = place p (record { name = reject_exts; exts = reject }) in
    let b = place r (record { name = bypass_exts; exts = bypass }) in slot_list b.0

star_is_last :
    init_exts_arr ("pdf" ∷ []) ("*" ∷ []) ("txt" ∷ [])
    ≡ record { name = "process"; exts = "pdf" ∷ [] }
      ∷ record { name = "bypass"; exts = "txt" ∷ [] }
      ∷ record { name = "reject"; exts = "*" ∷ [] }
      ∷ []
unfolding init_exts_arr
star_is_last = refl
