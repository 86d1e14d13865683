-- ===== src/Service/Kinds.antt =====
-- The kind of the message in a service's reply.
pub mod EchoFits
pub mod ClamavFits
pub mod HashlookupFits
use icapegclh.Prelude.{String, ◌≡◌, ◌⊎◌, inl}
use icapegclh.Http.{HttpMsg, whole_message}
use icapegclh.Exchange.{M}
use icapegclh.Exchange.Ensures.{Ensures}
use icapegclh.GeneralFunc.Kinds.{Fits}
use icapegclh.Service.Reply.{Reply}

abbrev pub ReplyFits : String → Reply → Type 0
ReplyFits method_name r = Fits method_name r.message

-- Or the pair of messages itself, with the status 204.
abbrev pub WholeFits : String → Reply → Type 0
WholeFits method_name r =
    ReplyFits method_name r ⊎ ((msg : HttpMsg) × (r.status ≡ 204) × (r.message ≡ whole_message msg))

pub WholeFits-Ensures :
    (method_name : String) (m : M Reply)
    → Ensures (ReplyFits method_name) m
    → Ensures (WholeFits method_name) m
WholeFits-Ensures method_name m h = record { at = λ s r s' e. inl (h.at s r s' e) }
