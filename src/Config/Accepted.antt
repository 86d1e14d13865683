-- ===== src/Config/Accepted.antt =====
-- What the start-up checks establish of the extension lists.
use icapegclh.Prelude.{
  ℕ, suc, String, true, false, ◌||◌, ◌≡◌, refl, List, [], ◌∷◌, arith, ◌==◌, eq_iff, length,
  if◌then◌else◌,
}
use mathlib.Core.Path.{subst}
use icapegclh.Prelude.Outcome.{done, >>=-eq-done, done-injective}
use icapegclh.Extension.{is_any}
use icapegclh.GeneralFunc.Extensions.{in_string_slice}
use icapegclh.Config.{Seen, check_exts, check_lists}

-- What one loop establishes, from the state before to the state after.
pub record Checked (n : ℕ) (xs : List String) (s s' : Seen) : Type 0 where
  pub members :
      (y : String) → in_string_slice y s'.exts ≡ (in_string_slice y xs || in_string_slice y s.exts)
  pub fresh : (y : String) → in_string_slice y xs ≡ true → in_string_slice y s.exts ≡ false
  pub stars : s'.asterisks ≡ (if in_string_slice "*" xs then suc s.asterisks else s.asterisks)
  pub lonely : in_string_slice "*" xs ≡ true → n ≡ 1

abbrev pub next : String → Seen → Seen
next x s = record {
  exts = x ∷ s.exts;
  asterisks = if x == "*" then suc s.asterisks else s.asterisks;
}

-- A round that goes on passed both tests.
pub check_exts-cons :
    (n : ℕ) (x : String) (xs : List String) (s s' : Seen)
    → check_exts n (x ∷ xs) s ≡ done s'
    → (x == "*" ≡ true → n ≡ 1)
      × (in_string_slice x s.exts ≡ false)
      × (check_exts n xs (next x s) ≡ done s')
unfolding check_exts
check_exts-cons n x xs s s' e = ground arith

Checked-nil : (n : ℕ) (s : Seen) → Checked n [] s s
unfolding in_string_slice
Checked-nil n s = record { members = λ y. refl; fresh = λ y h. cc; stars = refl; lonely = λ h. cc }

Checked-cons :
    (n : ℕ) (x : String) (xs : List String) (s s' : Seen)
    → (x == "*" ≡ true → n ≡ 1)
    → in_string_slice x s.exts ≡ false
    → Checked n xs (next x s) s'
    → Checked n (x ∷ xs) s s'
unfolding in_string_slice
Checked-cons n x xs s s' alone new c = record {
  members = λ y. ground (arith, c.members y);
  fresh = λ y h. ground (arith, c.fresh y, eq_iff y x);
  stars = ground (arith, c.stars, c.fresh "*", eq_iff "*" x, eq_iff x "*");
  lonely = λ h. ground (arith, c.lonely, eq_iff "*" x, eq_iff x "*");
}

pub check_exts-Checked :
    (n : ℕ) (xs : List String) (s s' : Seen) → check_exts n xs s ≡ done s' → Checked n xs s s'
unfolding check_exts
check_exts-Checked n [] s s' e = subst (λ t. Checked n [] s t) (done-injective e) (Checked-nil n s)
check_exts-Checked n (x ∷ xs) s s' e =
    let (alone, new, rest) = check_exts-cons n x xs s s' e in
    Checked-cons n x xs s s' alone new (check_exts-Checked n xs (next x s) s' rest)

-- What an accepted configuration of three lists guarantees: one of them is exactly "*", no other
-- holds "*", and no extension is in two of them.
pub record Accepted (bypass process reject : List String) : Type 0 where
  pub disjoint_bp :
      (y : String) → in_string_slice y bypass ≡ true → in_string_slice y process ≡ false
  pub disjoint_br :
      (y : String) → in_string_slice y bypass ≡ true → in_string_slice y reject ≡ false
  pub disjoint_pr :
      (y : String) → in_string_slice y process ≡ true → in_string_slice y reject ≡ false
  pub star_bypass : in_string_slice "*" bypass ≡ is_any bypass
  pub star_process : in_string_slice "*" process ≡ is_any process
  pub star_reject : in_string_slice "*" reject ≡ is_any reject
  pub some_star : (is_any bypass || is_any process || is_any reject) ≡ true

-- A list of one element that holds "*" is exactly "*".
pub star-is_any :
    (xs : List String)
    → (in_string_slice "*" xs ≡ true → length xs ≡ 1)
    → in_string_slice "*" xs ≡ is_any xs
unfolding in_string_slice is_any
star-is_any [] h = refl
star-is_any (x ∷ []) h = ground (arith, eq_iff "*" x, eq_iff x "*")
star-is_any (x ∷ y ∷ xs) h = ground (arith, h)

-- If the start-up check accepts the three lists, then no extension is in two of them, a list that
-- holds "*" holds nothing else, and one of the lists is "*".
pub check_lists-Accepted :
    (bypass process reject : List String)
    → check_lists bypass process reject ≡ done tt
    → Accepted bypass process reject
unfolding check_lists
check_lists-Accepted bypass process reject e =
    let (b, eb, e1) = >>=-eq-done (check_exts (length bypass) bypass _) _ e in
    let (p, ep, e2) = >>=-eq-done (check_exts (length process) process b) _ e1 in
    let (r, er, e3) = >>=-eq-done (check_exts (length reject) reject p) _ e2 in
    let cb = check_exts-Checked (length bypass) bypass _ b eb in
    let cp = check_exts-Checked (length process) process b p ep in
    let cr = check_exts-Checked (length reject) reject p r er in
    record {
      disjoint_bp = λ y h. ground (arith, cb.members y, cp.fresh y);
      disjoint_br = λ y h. ground (arith, cb.members y, cp.members y, cr.fresh y);
      disjoint_pr = λ y h. ground (arith, cp.members y, cr.fresh y);
      star_bypass = star-is_any bypass cb.lonely;
      star_process = star-is_any process cp.lonely;
      star_reject = star-is_any reject cr.lonely;
      some_star = ground (
        arith,
        cb.stars,
        cp.stars,
        cr.stars,
        star-is_any bypass cb.lonely,
        star-is_any process cp.lonely,
        star-is_any reject cr.lonely,
      );
    }
