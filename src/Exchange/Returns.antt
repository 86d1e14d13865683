-- ===== src/Exchange/Returns.antt =====
-- Calls that return where the messages of a method are there, and keep them there: one rule for each
-- way to build a call.
use icapegclh.Prelude.{
  String, ◌≡◌, refl, Bool, true, false, Option, none, some, ◌==◌, if◌then◌else◌,
}
use icapegclh.Prelude.Outcome.{Outcome, done}
use icapegclh.Consts.{icap_mode_req, icap_mode_resp}
use icapegclh.Http.{HttpMsg, Request, Response}
use icapegclh.Exchange.{
  M, ◌>>=◌, ◌>>◌, pure, lift, maybe, current, the_request, the_built_request, the_response,
  put_request, put_response,
}
use icapegclh.Exchange.Ensures.{elim-done}

-- Outside RESPMOD the request is not the zero one: its URL and its header map are there.
abbrev pub IsBuilt : String → Request → Type 0
IsBuilt method_name r = method_name == icap_mode_resp ≡ false → r.is_zero ≡ false

-- The request is there, and outside REQMOD the response is there too.
pub record Present (method_name : String) (s : HttpMsg) : Type 0 where
  pub with_request : (r : Request) × (s.request ≡ some r) × IsBuilt method_name r
  pub with_response :
      method_name == icap_mode_req ≡ false → (resp : Response) × (s.response ≡ some resp)

-- A run that returns such a value, with the messages still there.
pub record Done {A : Type 0} (method_name : String) (P : A → Type 0) (o : Outcome (A × HttpMsg))
    : Type 0 where
  pub value : A
  pub after : HttpMsg
  pub returned : o ≡ done (value, after)
  pub kept : Present method_name after
  pub holds : P value

pub record Returns {A : Type 0} (method_name : String) (P : A → Type 0) (m : M A) : Type 0 where
  pub run : (s : HttpMsg) → Present method_name s → Done method_name P (m s)

-- What holds of every value.
abbrev pub Anything : {A : Type 0} → A → Type 0
Anything a = Unit {0}

module _ (method_name : String) where
  module _ {A : Type 0} {P : A → Type 0} where
    pub Returns-pure : (a : A) → P a → Returns method_name P (pure a)
    unfolding pure
    Returns-pure a h = record {
      run = λ s k. record { value = a; after = s; returned = refl; kept = k; holds = h };
    }

    pub Returns-lift : (o : Outcome A) (a : A) → o ≡ done a → P a → Returns method_name P (lift o)
    unfolding lift
    Returns-lift o a e h = record {
      run = λ s k. record { value = a; after = s; returned = rw e refl; kept = k; holds = h };
    }

    -- The branches may use the test.
    pub Returns-if :
        (b : Bool) (m n : M A)
        → (b ≡ true → Returns method_name P m)
        → (b ≡ false → Returns method_name P n)
        → Returns method_name P (if b then m else n)
    Returns-if true m n hm hn = hm refl
    Returns-if false m n hm hn = hn refl

    pub Returns-either :
        (b : Bool) (m n : M A)
        → Returns method_name P m
        → Returns method_name P n
        → Returns method_name P (if b then m else n)
    Returns-either b m n hm hn = Returns-if b m n (λ _. hm) (λ _. hn)

  module _ {A B : Type 0} {P : B → Type 0} where
    -- The rest may use what the first call ensures.
    pub Returns-bind_after :
        {Q : A → Type 0} (m : M A) (f : A → M B)
        → Returns method_name Q m
        → ((a : A) → Q a → Returns method_name P (f a))
        → Returns method_name P (m >>= f)
    unfolding ◌>>=◌
    Returns-bind_after m f hm h = record {
      run = λ s k.
          let first = hm.run s k in
          let rest = (h first.value first.holds).run first.after first.kept in
          record {
            value = rest.value;
            after = rest.after;
            returned = elim-done (m s) f first.returned rest.returned;
            kept = rest.kept;
            holds = rest.holds;
          };
    }

    pub Returns-bind :
        (m : M A) (f : A → M B)
        → Returns method_name Anything m
        → ((a : A) → Returns method_name P (f a))
        → Returns method_name P (m >>= f)
    Returns-bind m f hm h = Returns-bind_after m f hm (λ a _. h a)

    pub Returns-then :
        (m : M A) (n : M B)
        → Returns method_name Anything m
        → Returns method_name P n
        → Returns method_name P (m >> n)
    unfolding ◌>>◌
    Returns-then m n hm h = Returns-bind m (λ _. n) hm (λ _. h)

    pub Returns-maybe :
        (o : Option A) (m : M B) (f : A → M B)
        → Returns method_name P m
        → ((a : A) → Returns method_name P (f a))
        → Returns method_name P (maybe o m f)
    unfolding maybe
    Returns-maybe none m f hm hf = hm
    Returns-maybe (some a) m f hm hf = hf a

    -- The rest may use the test for nil.
    pub Returns-maybe_known :
        (o : Option A) (m : M B) (f : A → M B)
        → Returns method_name P m
        → ((a : A) → o ≡ some a → Returns method_name P (f a))
        → Returns method_name P (maybe o m f)
    unfolding maybe
    Returns-maybe_known none m f hm hf = hm
    Returns-maybe_known (some a) m f hm hf = hf a refl

    -- A result that is there.
    pub Returns-made :
        (o : Option A) (m : M B) (f : A → M B)
        → (a : A) × (o ≡ some a)
        → ((a : A) → Returns method_name P (f a))
        → Returns method_name P (maybe o m f)
    unfolding maybe
    Returns-made none m f made hf = absurd (cc made.1)
    Returns-made (some a) m f made hf = hf a

  pub Returns-current : Returns method_name Anything current
  unfolding current
  Returns-current = record {
    run = λ s k. record { value = s; after = s; returned = refl; kept = k; holds = tt };
  }

  pub Returns-the_request-IsBuilt : Returns method_name (IsBuilt method_name) the_request
  unfolding the_request
  Returns-the_request-IsBuilt = record {
    run = λ s k.
        let (r, e, built) = k.with_request in
        record { value = r; after = s; returned = rw e refl; kept = k; holds = built };
  }

  pub Returns-the_request : Returns method_name Anything the_request
  Returns-the_request = record {
    run = λ s k.
        let d = Returns-the_request-IsBuilt.run s k in
        record {
          value = d.value;
          after = d.after;
          returned = d.returned;
          kept = d.kept;
          holds = tt;
        };
  }

  built-done :
      (s : HttpMsg) (r : Request)
      → s.request ≡ some r
      → r.is_zero ≡ false
      → the_built_request s ≡ done (r, s)
  unfolding the_built_request the_request
  built-done s r e z = rw (e, z) refl

  pub Returns-the_built_request :
      method_name == icap_mode_resp ≡ false
      → Returns method_name (IsBuilt method_name) the_built_request
  Returns-the_built_request other = record {
    run = λ s k.
        let (r, e, built) = k.with_request in
        record {
          value = r;
          after = s;
          returned = built-done s r e (built other);
          kept = k;
          holds = built;
        };
  }

  pub Returns-the_response :
      method_name == icap_mode_req ≡ false → Returns method_name Anything the_response
  unfolding the_response
  Returns-the_response h = record {
    run = λ s k.
        let (resp, e) = k.with_response h in
        record { value = resp; after = s; returned = rw e refl; kept = k; holds = tt };
  }

  pub Returns-put_request :
      (r : Request) → IsBuilt method_name r → Returns method_name Anything (put_request r)
  unfolding put_request
  Returns-put_request r built = record {
    run = λ s k. record {
      value = tt;
      after = record s { request = some r };
      returned = refl;
      kept = record { with_request = (r, refl, built); with_response = k.with_response };
      holds = tt;
    };
  }

  pub Returns-put_response : (r : Response) → Returns method_name Anything (put_response r)
  unfolding put_response
  Returns-put_response r = record {
    run = λ s k. record {
      value = tt;
      after = record s { response = some r };
      returned = refl;
      kept = record { with_request = k.with_request; with_response = λ _. (r, refl) };
      holds = tt;
    };
  }

pub ruleset returns_rules = (
  Returns-pure, Returns-either, Returns-bind, Returns-then, Returns-maybe, Returns-current,
  Returns-the_request, Returns-put_request, Returns-put_response,
)
