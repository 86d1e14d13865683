-- ===== src/Config/Exactly.antt =====
-- Which extension lists the start-up checks accept.
use icapegclh.Prelude.{
  ℕ, String, true, false, ◌≡◌, refl, sym, ◌∙◌, ◌↔◌, List, [], ◌∷◌, arith, ◌==◌, eq_iff, eq_refl,
  length,
}
use icapegclh.Prelude.Outcome.{done, >>=-eq-done}
use icapegclh.Extension.{is_any}
use icapegclh.GeneralFunc.Extensions.{in_string_slice}
use icapegclh.Config.{Seen, check_exts, check_lists}
use icapegclh.Config.Accepted.{
  Accepted, Checked, next, check_exts-cons, check_exts-Checked, check_lists-Accepted,
}

-- No extension stands twice in a list.
unfoldable pub NoRepeat : List String → Type 0
NoRepeat [] = Unit {0}
NoRepeat (x ∷ xs) = (in_string_slice x xs ≡ false) × NoRepeat xs

check_exts-NoRepeat :
    (n : ℕ) (xs : List String) (s s' : Seen) → check_exts n xs s ≡ done s' → NoRepeat xs
unfolding NoRepeat in_string_slice
check_exts-NoRepeat n [] s s' e = tt
check_exts-NoRepeat n (x ∷ xs) s s' e =
    let (alone, new, rest) = check_exts-cons n x xs s s' e in
    let c = check_exts-Checked n xs (next x s) s' rest in
    (ground (arith, c.fresh x, eq_refl x), check_exts-NoRepeat n xs (next x s) s' rest)

-- A round that passes both tests goes on.
check_exts-step :
    (n : ℕ) (x : String) (xs : List String) (s : Seen)
    → (x == "*" ≡ true → n ≡ 1)
    → in_string_slice x s.exts ≡ false
    → check_exts n (x ∷ xs) s ≡ check_exts n xs (next x s)
unfolding check_exts
check_exts-step n x xs s alone new = ground arith

check_exts-done :
    (n : ℕ) (xs : List String) (s : Seen)
    → NoRepeat xs
    → ((y : String) → in_string_slice y xs ≡ true → in_string_slice y s.exts ≡ false)
    → (in_string_slice "*" xs ≡ true → n ≡ 1)
    → (s' : Seen) × (check_exts n xs s ≡ done s')
unfolding NoRepeat in_string_slice check_exts
check_exts-done n [] s distinct fresh alone = (s, refl)
check_exts-done n (x ∷ xs) s (new, distinct) fresh alone =
    let (s', rest) =
      check_exts-done n xs (next x s) distinct (λ y h. ground (arith, fresh y, h, new, eq_iff y x))
        (λ h. ground (arith, alone)) in
    (
      s',
      check_exts-step n x xs s (λ h. ground (arith, alone, h, eq_iff "*" x, eq_iff x "*"))
            (fresh x (ground (arith, eq_refl x)))
          ∙ rest,
    )

-- One list is "*", and no other holds it.
one_star :
    (bypass process reject : List String) (s0 b p r : Seen)
    → Accepted bypass process reject
    → s0.asterisks ≡ 0
    → Checked (length bypass) bypass s0 b
    → Checked (length process) process b p
    → Checked (length reject) reject p r
    → r.asterisks ≡ 1
one_star bypass process reject s0 b p r a zero cb cp cr = ground (
  arith,
  zero,
  cb.stars,
  cp.stars,
  cr.stars,
  a.star_bypass,
  a.star_process,
  a.star_reject,
  a.some_star,
  a.disjoint_bp "*",
  a.disjoint_br "*",
  a.disjoint_pr "*",
)

is_any-length : (xs : List String) → is_any xs ≡ true → length xs ≡ 1
unfolding is_any
is_any-length [] h = absurd (cc)
is_any-length (x ∷ []) h = refl
is_any-length (x ∷ y ∷ xs) h = absurd (cc)

check_lists-done :
    (bypass process reject : List String)
    → Accepted bypass process reject
    → NoRepeat bypass
    → NoRepeat process
    → NoRepeat reject
    → check_lists bypass process reject ≡ done tt
unfolding check_lists in_string_slice
check_lists-done bypass process reject a nb np nr =
    let s0 : Seen = record { exts = []; asterisks = 0 } in
    let (b, eb) =
      check_exts-done (length bypass) bypass s0 nb (λ y h. refl)
        (λ h. is_any-length bypass (sym a.star_bypass ∙ h)) in
    let cb = check_exts-Checked (length bypass) bypass s0 b eb in
    let (p, ep) =
      check_exts-done (length process) process b np
        (λ y h. ground (arith, h, cb.members y, a.disjoint_bp y))
        (λ h. is_any-length process (sym a.star_process ∙ h)) in
    let cp = check_exts-Checked (length process) process b p ep in
    let (r, er) =
      check_exts-done (length reject) reject p nr
        (λ y h. ground (arith, h, cb.members y, cp.members y, a.disjoint_br y, a.disjoint_pr y))
        (λ h. is_any-length reject (sym a.star_reject ∙ h)) in
    let cr = check_exts-Checked (length reject) reject p r er in
    let one = one_star bypass process reject s0 b p r a refl cb cp cr in rw (eb, ep, er, one) refl

-- The start-up check accepts three lists exactly where no extension is in two of them, a list that
-- holds "*" holds nothing else, one of the lists is "*", and no list holds an extension twice.
pub check_lists_iff :
    (bypass process reject : List String)
    → (check_lists bypass process reject ≡ done tt)
      ↔ (Accepted bypass process reject × NoRepeat bypass × NoRepeat process × NoRepeat reject)
unfolding check_lists
check_lists_iff bypass process reject = (
  λ e.
      let (b, eb, e1) = >>=-eq-done (check_exts (length bypass) bypass _) _ e in
      let (p, ep, e2) = >>=-eq-done (check_exts (length process) process b) _ e1 in
      let (r, er, e3) = >>=-eq-done (check_exts (length reject) reject p) _ e2 in
      (
        check_lists-Accepted bypass process reject e,
        check_exts-NoRepeat _ bypass _ b eb,
        check_exts-NoRepeat _ process b p ep,
        check_exts-NoRepeat _ reject p r er,
      ),
  λ (a, nb, np, nr). check_lists-done bypass process reject a nb np nr,
)
