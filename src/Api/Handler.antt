-- ===== src/Api/Handler.antt =====
-- api/icap-request.go: the request's state, and the monad of its methods. The connection behind
-- `icap.ResponseWriter` is the log of the calls that are made on it. What is only logged is left out.
use icapegclh.Prelude.{ℕ, String, Bool, Option, none, some, List, [], ◌∷◌, ◌++◌}
use icapegclh.Prelude.Outcome.{Outcome, done, panicked}
use icapegclh.Header.{Header, lookup}
use icapegclh.FormPart.{Bytes}
use icapegclh.Http.{Message, Request, Response, Url}
use icapegclh.Config.{AppConfig, ServiceIcapInfo}

-- `WriteHeader(code, httpMessage, hasBody)` and `Write(bytes)`.
pub data Written : Type 0 where
  head : ℕ → Message → Bool → Written
  chunk : Bytes → Written

-- `OrgRequest`: a request of its own, which shares the header map, or the request itself.
pub data Original : Type 0 where
  own : String → Url → Bytes → Original
  same : Original

-- The fields of `icap.Request` that are read.
pub record IcapRequest : Type 0 where
  pub method : String
  pub url_path : String
  pub header : Header
  pub end_indicator : String
  pub org_request : Option Original
  pub request : Option Request
  pub response : Option Response

pub record Handler : Type 0 where
  pub w : List Written
  pub req : IcapRequest
  pub h : Header
  pub is_204_allowed : Bool
  pub is_shadow_service_enabled : Bool
  pub app_cfg : AppConfig
  pub service_name : String
  pub method_name : String
  pub vendor : String
  pub x_icap_metadata : String  -- the argument `xICAPMetadata` of the methods

abbrev pub H : Type 0 → Type 0
H A = Handler → Outcome (A × Handler)

infixl 5 ◌>>=◌ ◌>>◌
abbrev pub ◌>>=◌ : {A B : Type 0} → H A → (A → H B) → H B
◌>>=◌ m f s = elim (m s) [ done (a, s') ↦ f a s' | panicked ↦ panicked ]

abbrev pub ◌>>◌ : {A B : Type 0} → H A → H B → H B
m >> k = m >>= λ _. k

abbrev pub pure : {A : Type 0} → A → H A
pure a s = done (a, s)

abbrev pub abort : {A : Type 0} → H A
abort s = panicked

abbrev pub lift : {A : Type 0} → Outcome A → H A
lift (done a) s = done (a, s)
lift panicked s = panicked

abbrev pub self : H Handler
self s = done (s, s)

abbrev pub modify : (Handler → Handler) → H (Unit {0})
modify f s = done (tt, f s)

abbrev pub update_req : (IcapRequest → IcapRequest) → H (Unit {0})
update_req f s = done (tt, record s { req = f s.req })

-- A call on the writer.
abbrev pub write : Written → H (Unit {0})
write x s = done (tt, record s { w = s.w ++ x ∷ [] })

abbrev deref : {A : Type 0} → Option A → Handler → Outcome (A × Handler)
deref none s = panicked
deref (some a) s = done (a, s)

-- A dereference of `i.req.Request`, `i.req.Response`, `i.req.OrgRequest`, and of the service's entry.
abbrev pub the_request : H Request
the_request s = deref s.req.request s

abbrev pub the_response : H Response
the_response s = deref s.req.response s

abbrev pub the_original : H Original
the_original s = deref s.req.org_request s

abbrev pub the_instance : H ServiceIcapInfo
the_instance s = deref (lookup s.service_name s.app_cfg.services_instances) s
