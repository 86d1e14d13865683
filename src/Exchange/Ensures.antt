-- ===== src/Exchange/Ensures.antt =====
-- What holds of every value that a call returns, one rule for each way to build a call.
use mathlib.Core.Path.{subst, ap}
use icapegclh.Prelude.{◌≡◌, refl, Bool, true, false, Option, none, some, if◌then◌else◌}
use icapegclh.Prelude.Outcome.{Outcome, done, panicked, done-injective}
use icapegclh.Http.{HttpMsg}
use icapegclh.Exchange.{M, ◌>>=◌, ◌>>◌, pure, abort, maybe}

pub record Ensures {A : Type 0} (P : A → Type 0) (m : M A) : Type 0 where
  pub at : (s : HttpMsg) (a : A) (s' : HttpMsg) → m s ≡ done (a, s') → P a

-- A chain that returns: its first call returned.
pub elim-eq-done :
    {A B S : Type 0} (r : Outcome (A × S)) (f : A → S → Outcome (B × S)) (b : B) (s' : S)
    → (elim r [ done (a, t) ↦ f a t | panicked ↦ panicked ]) ≡ done (b, s')
    → (a : A) × (t : S) × (r ≡ done (a, t)) × (f a t ≡ done (b, s'))
elim-eq-done (done (a, t)) f b s' e = (a, t, refl, e)
elim-eq-done panicked f b s' e = cc

-- A chain whose first call returns.
pub elim-done :
    {A B S : Type 0} (o : Outcome (A × S)) (f : A → S → Outcome (B × S)) {a : A} {t : S}
    {r : Outcome (B × S)}
    → o ≡ done (a, t)
    → f a t ≡ r
    → (elim o [ done (a, t) ↦ f a t | panicked ↦ panicked ]) ≡ r
elim-done o f e e' = rw e e'

pub >>=-done :
    {A B : Type 0} (first : M A) (next : A → M B) (s t : HttpMsg) (a : A)
    → first s ≡ done (a, t)
    → (first >>= next) s ≡ next a t
unfolding ◌>>=◌
>>=-done {A} {B} first next s t a h =
    let go_on : Outcome (A × HttpMsg) → Outcome (B × HttpMsg) =
      λ o. elim o [ done (b, u) ↦ next b u | panicked ↦ panicked ] in
    ap go_on h

module _ {A : Type 0} {P : A → Type 0} where
  pub Ensures-pure : (a : A) → P a → Ensures P (pure a)
  unfolding pure
  Ensures-pure a h = record {
    at = λ s b s' e. subst P (ap (λ (r : A × HttpMsg). r.0) (done-injective e)) h;
  }

  pub Ensures-abort : Ensures P abort
  unfolding abort
  Ensures-abort = record { at = λ s a s' e. cc }

  pub Ensures-if :
      (b : Bool) (m n : M A) → Ensures P m → Ensures P n → Ensures P (if b then m else n)
  Ensures-if true m n hm hn = hm
  Ensures-if false m n hm hn = hn

  -- The branches may use the test.
  pub Ensures-if_known :
      (b : Bool) (m n : M A)
      → (b ≡ true → Ensures P m)
      → (b ≡ false → Ensures P n)
      → Ensures P (if b then m else n)
  Ensures-if_known true m n hm hn = hm refl
  Ensures-if_known false m n hm hn = hn refl

module _ {A B : Type 0} {P : B → Type 0} where
  pub Ensures-bind : (m : M A) (f : A → M B) → ((a : A) → Ensures P (f a)) → Ensures P (m >>= f)
  unfolding ◌>>=◌
  Ensures-bind m f h = record {
    at = λ s b s' e. let (a, t, _, e') = elim-eq-done (m s) f b s' e in (h a).at t b s' e';
  }

  pub Ensures-then : (m : M A) (n : M B) → Ensures P n → Ensures P (m >> n)
  unfolding ◌>>◌
  Ensures-then m n h = Ensures-bind m (λ _. n) (λ _. h)

  -- The rest may use what the first call ensures.
  pub Ensures-bind_after :
      {Q : A → Type 0} (m : M A) (f : A → M B)
      → Ensures Q m
      → ((a : A) → Q a → Ensures P (f a))
      → Ensures P (m >>= f)
  unfolding ◌>>=◌
  Ensures-bind_after m f hm h = record {
    at = λ s b s' e.
        let (a, t, first, rest) = elim-eq-done (m s) f b s' e in
        (h a (hm.at s a t first)).at t b s' rest;
  }

  pub Ensures-maybe :
      (o : Option A) (m : M B) (f : A → M B)
      → Ensures P m
      → ((a : A) → Ensures P (f a))
      → Ensures P (maybe o m f)
  unfolding maybe
  Ensures-maybe none m f hm hf = hm
  Ensures-maybe (some a) m f hm hf = hf a

pub ruleset ensures_rules =
    (Ensures-pure, Ensures-abort, Ensures-if, Ensures-bind, Ensures-then, Ensures-maybe)
