-- ===== src/Header/Deleted.antt =====
-- The loop that deletes every key of a header.
use icapegclh.Prelude.{
  String, Bool, true, ◌≡◌, refl, ap, ◌∙◌, List, [], ◌∷◌, any, All, arith, ◌==◌, eq_iff, eq_refl,
  Bool-cases, inl, inr,
}
use icapegclh.Header.{Header, remove, del, del_keys}

-- Every entry's key is a key of the other header.
abbrev has_key : Header → String → Bool
has_key m key = any (λ entry. entry.0 == key) m

abbrev Covered : Header → Header → Type 0
Covered m h = All (λ entry. has_key m entry.0 ≡ true) h

Covered-cons : (entry : String × List String) (m h : Header) → Covered m h → Covered (entry ∷ m) h
Covered-cons entry m [] c = tt
Covered-cons entry m (e ∷ h) (here, there) = (ground arith, Covered-cons entry m h there)

Covered-self : (h : Header) → Covered h h
Covered-self [] = tt
Covered-self (e ∷ h) = (rw (eq_refl e.0) refl, Covered-cons e h h (Covered-self h))

Covered-remove :
    (k : String) (vs : List String) (m h : Header)
    → Covered ((k, vs) ∷ m) h
    → Covered m (remove k h)
unfolding remove
Covered-remove k vs m [] c = tt
Covered-remove k vs m (e ∷ h) (here, there) = elim (Bool-cases (e.0 == k)) [
  | inl same ↦ rw same (Covered-remove k vs m h there)
  | inr other ↦
      rw other
        (ground (arith, eq_iff e.0 k, eq_iff k e.0, here, other), Covered-remove k vs m h there)
]

-- The keys of the header that is ranged over are as `CanonicalMIMEHeaderKey` leaves them.
abbrev pub Canonical : (String → String) → Header → Type 0
Canonical canonical m = All (λ entry. canonical entry.0 ≡ entry.0) m

del_keys-Covered :
    (canonical : String → String) (m h : Header)
    → Canonical canonical m
    → Covered m h
    → del_keys canonical m h ≡ []
unfolding del_keys del
del_keys-Covered canonical [] [] k c = refl
del_keys-Covered canonical [] (e ∷ h) k c = absurd (cc c.0)
del_keys-Covered canonical ((key, vs) ∷ m) h (is_canonical, k) c =
    let deleted : del canonical key h ≡ remove key h = ap (λ n. remove n h) is_canonical in
    ap (del_keys canonical m) deleted
    ∙ del_keys-Covered canonical m (remove key h) k (Covered-remove key vs m h c)

-- Where the keys are canonical, nothing is left.
pub del_keys_self :
    (canonical : String → String) (h : Header) → Canonical canonical h → del_keys canonical h h ≡ []
del_keys_self canonical h k = del_keys-Covered canonical h h k (Covered-self h)
