-- ===== src/Exchange.antt =====
-- The monad of the functions on a shared `*HttpMsg`: each reads and writes the message, and returns
-- or panics.
pub mod Ensures
pub mod Returns
use icapegclh.Prelude.{Option, none, some, if◌then◌else◌}
use icapegclh.Prelude.Outcome.{Outcome, done, panicked}
use icapegclh.Http.{HttpMsg, Request, Response}

abbrev pub M : Type 0 → Type 0
M A = HttpMsg → Outcome (A × HttpMsg)

infixl 5 ◌>>=◌ ◌>>◌
unfoldable pub ◌>>=◌ : {A B : Type 0} → M A → (A → M B) → M B
◌>>=◌ m f s = elim (m s) [ done (a, s') ↦ f a s' | panicked ↦ panicked ]

unfoldable pub ◌>>◌ : {A B : Type 0} → M A → M B → M B
unfolding ◌>>=◌
m >> k = m >>= λ _. k

unfoldable pub pure : {A : Type 0} → A → M A
pure a s = done (a, s)

unfoldable pub abort : {A : Type 0} → M A
abort s = panicked

unfoldable pub lift : {A : Type 0} → Outcome A → M A
lift (done a) s = done (a, s)
lift panicked s = panicked

-- A test for nil.
unfoldable pub maybe : {A B : Type 0} → Option A → M B → (A → M B) → M B
maybe none m f = m
maybe (some a) m f = f a

-- `f.httpMsg`
unfoldable pub current : M HttpMsg
current s = done (s, s)

-- A dereference of `f.httpMsg.Request` and of `f.httpMsg.Response`.
abbrev deref : {A : Type 0} → Option A → HttpMsg → Outcome (A × HttpMsg)
deref none s = panicked
deref (some a) s = done (a, s)

unfoldable pub the_request : M Request
the_request s = deref s.request s

-- A request whose URL is dereferenced, whose header map is written to, or whose body is read: all three
-- are nil in the zero request.
abbrev written_to : Request → HttpMsg → Outcome (Request × HttpMsg)
written_to r s = if r.is_zero then panicked else done (r, s)

unfoldable pub the_built_request : M Request
unfolding the_request
the_built_request s = elim (the_request s) [ done (r, s') ↦ written_to r s' | panicked ↦ panicked ]

unfoldable pub the_response : M Response
the_response s = deref s.response s

unfoldable pub put_request : Request → M (Unit {0})
put_request r s = done (tt, record s { request = some r })

unfoldable pub put_response : Response → M (Unit {0})
put_response r s = done (tt, record s { response = some r })

-- All of the monad, for proofs that run it.
unfoldable pub exchange : Unit {0}
unfolding ◌>>=◌ ◌>>◌ pure abort lift maybe current the_request the_built_request the_response
    put_request put_response
exchange = tt
