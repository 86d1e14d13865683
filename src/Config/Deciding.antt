-- ===== src/Config/Deciding.antt =====
-- In an accepted configuration the decision about an extension does not depend on the order in which
-- the lists are checked.
use icapegclh.Prelude.{
  String, true, false, ◌||◌, ◌≡◌, inl, inr, List, arith, Bool-cases, if◌then◌else◌,
}
use icapegclh.Prelude.Outcome.{done}
use icapegclh.Extension.{is_any, init_exts_arr}
use icapegclh.Extension.Order.{init_exts_arr-process, init_exts_arr-reject, init_exts_arr-bypass}
use icapegclh.GeneralFunc.Extensions.{
  in_string_slice, if_file_ext_is_x, Decision, process, reject, bypass, decide,
}
use icapegclh.Config.{check_lists}
use icapegclh.Config.Accepted.{Accepted, check_lists-Accepted}

-- The list that names the extension, and else the list that is "*".
abbrev pub verdict : String → (ps rs bs : List String) → Decision
verdict ext ps rs bs =
    if in_string_slice ext ps
    then process
    else if in_string_slice ext rs
    then reject
    else if in_string_slice ext bs
    then bypass
    else if is_any ps
    then process
    else if is_any rs
    then reject
    else bypass

if_file_ext_is_x-or :
    (ext : String) (xs : List String)
    → if_file_ext_is_x ext xs ≡ (is_any xs || in_string_slice ext xs)
unfolding if_file_ext_is_x
if_file_ext_is_x-or ext xs = ground arith

module _ (ps rs bs : List String) (a : Accepted bs ps rs) where
  -- At most one list is "*".
  one_star :
      (is_any ps ≡ true → (is_any rs ≡ false) × (is_any bs ≡ false))
      × (is_any rs ≡ true → is_any bs ≡ false)
  one_star = ground (
    arith,
    a.disjoint_bp "*",
    a.disjoint_br "*",
    a.disjoint_pr "*",
    a.star_bypass,
    a.star_process,
    a.star_reject,
  )

  module _ (ext : String) where
    decide-process :
        is_any ps ≡ true → decide ext ps rs bs (init_exts_arr ps rs bs) ≡ verdict ext ps rs bs
    unfolding decide if_file_ext_is_x
    decide-process p =
        let (r, b) = one_star.0 p in
        rw (init_exts_arr-process ps rs bs p r b)
          (ground (arith, a.disjoint_bp ext, a.disjoint_br ext, a.disjoint_pr ext))

    decide-reject :
        is_any ps ≡ false
        → is_any rs ≡ true
        → decide ext ps rs bs (init_exts_arr ps rs bs) ≡ verdict ext ps rs bs
    unfolding decide if_file_ext_is_x
    decide-reject p r =
        let b = one_star.1 r in
        rw (init_exts_arr-reject ps rs bs p r b)
          (ground (arith, a.disjoint_bp ext, a.disjoint_br ext, a.disjoint_pr ext))

    decide-bypass :
        is_any ps ≡ false
        → is_any rs ≡ false
        → decide ext ps rs bs (init_exts_arr ps rs bs) ≡ verdict ext ps rs bs
    unfolding decide if_file_ext_is_x
    decide-bypass p r =
        let b : is_any bs ≡ true = ground (arith, a.some_star) in
        rw (init_exts_arr-bypass ps rs bs p r b)
          (ground (arith, a.disjoint_bp ext, a.disjoint_br ext, a.disjoint_pr ext))

-- If the start-up check accepts the three lists, then an extension is decided by the list that names
-- it, and by the list that is "*" if none does; so the order of the checks has no effect.
pub decide-init_exts_arr :
    (ext : String) (ps rs bs : List String)
    → check_lists bs ps rs ≡ done tt
    → decide ext ps rs bs (init_exts_arr ps rs bs) ≡ verdict ext ps rs bs
decide-init_exts_arr ext ps rs bs e =
    let a = check_lists-Accepted bs ps rs e in
    elim (Bool-cases (is_any ps)) [
      | inl p ↦ decide-process ps rs bs a ext p
      | inr p ↦ elim (Bool-cases (is_any rs)) [
        | inl r ↦ decide-reject ps rs bs a ext p r
        | inr r ↦ decide-bypass ps rs bs a ext p r
      ]
    ]
