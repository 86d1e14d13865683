-- ===== src/Service/Fitting.antt =====
-- What message a service's reply carries.
use icapegclh.Prelude.{Bool, ◌≡◌, inl}
use icapegclh.Prelude.Outcome.{done}
use icapegclh.Header.{Header}
use icapegclh.Http.{HttpMsg}
use icapegclh.External.{External}
use icapegclh.Settings.{Source}
use icapegclh.GeneralFunc.Kinds.{IsMod}
use icapegclh.Service.Reply.{Reply}
use icapegclh.Service.Dispatch.{Service, echo, hashlookup, clamav, processing}
use icapegclh.Service.Returning.{method_of}
use icapegclh.Service.Kinds.{WholeFits}
use icapegclh.Service.Kinds.EchoFits.{echo_processing-Fits}
use icapegclh.Service.Kinds.ClamavFits.{clamav_processing-WholeFits}
use icapegclh.Service.Kinds.HashlookupFits.{hashlookup_processing-WholeFits}

module _ (ext : External) (src : Source) where
  -- In REQMOD and RESPMOD, a reply that a service returns, to a preview or to a whole body, carries no
  -- message or the message that belongs to the method, a request in REQMOD and a response in RESPMOD;
  -- or it carries the pair of both messages, and then its status is 204.
  pub processing-WholeFits :
      (service : Service) (partial : Bool) (icap_header : Header) (s s' : HttpMsg) (reply : Reply)
      → IsMod (method_of service)
      → processing ext src service partial icap_header s ≡ done (reply, s')
      → WholeFits (method_of service) reply
  unfolding processing
  processing-WholeFits (echo e) partial h s s' reply m_known eq =
      inl ((echo_processing-Fits ext src e m_known partial h).at s reply s' eq)
  processing-WholeFits (hashlookup l) partial h s s' reply m_known eq =
      (hashlookup_processing-WholeFits ext src l m_known partial h).at s reply s' eq
  processing-WholeFits (clamav c) partial h s s' reply m_known eq =
      (clamav_processing-WholeFits ext src c m_known partial h).at s reply s' eq
