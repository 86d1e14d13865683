-- ===== src/Extension/Order.antt =====
-- The order of the three lists when exactly one of them is "*".
use icapegclh.Prelude.{String, true, false, ◌≡◌, List, [], ◌∷◌, arith}
use icapegclh.Consts.{process_exts, reject_exts, bypass_exts}
use icapegclh.Extension.{Extension, is_any, init_exts_arr}

abbrev pub process_ext : List String → Extension
process_ext ps = record { name = process_exts; exts = ps }

abbrev pub reject_ext : List String → Extension
reject_ext rs = record { name = reject_exts; exts = rs }

abbrev pub bypass_ext : List String → Extension
bypass_ext bs = record { name = bypass_exts; exts = bs }

module _ (ps rs bs : List String) where
  pub init_exts_arr-process :
      is_any ps ≡ true
      → is_any rs ≡ false
      → is_any bs ≡ false
      → init_exts_arr ps rs bs ≡ reject_ext rs ∷ bypass_ext bs ∷ process_ext ps ∷ []
  unfolding init_exts_arr
  init_exts_arr-process p r b = simp (p, r, b)

  pub init_exts_arr-reject :
      is_any ps ≡ false
      → is_any rs ≡ true
      → is_any bs ≡ false
      → init_exts_arr ps rs bs ≡ process_ext ps ∷ bypass_ext bs ∷ reject_ext rs ∷ []
  unfolding init_exts_arr
  init_exts_arr-reject p r b = ground arith

  pub init_exts_arr-bypass :
      is_any ps ≡ false
      → is_any rs ≡ false
      → is_any bs ≡ true
      → init_exts_arr ps rs bs ≡ process_ext ps ∷ reject_ext rs ∷ bypass_ext bs ∷ []
  unfolding init_exts_arr
  init_exts_arr-bypass p r b = rw (p, r, b)
