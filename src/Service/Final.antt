-- ===== src/Service/Final.antt =====
-- What holds of every service: a preview is refused without a look, a whole body is decided.
use icapegclh.Prelude.{true, false, ◌≡◌, arith}
use icapegclh.Prelude.Outcome.{done}
use icapegclh.Header.{Header}
use icapegclh.Http.{HttpMsg, nil_message}
use icapegclh.External.{External}
use icapegclh.Settings.{Source}
use icapegclh.Exchange.{exchange}
use icapegclh.GeneralFunc.Headers.{log_http_msg_headers}
use icapegclh.Service.Reply.{Reply}
use icapegclh.Service.Dispatch.{Service, echo, hashlookup, clamav, processing}
use icapegclh.Service.Status.{IsFinal}
use icapegclh.Service.Status.EchoFinal.{echo_processing-IsFinal}
use icapegclh.Service.Status.HashlookupFinal.{hashlookup_processing-IsFinal}
use icapegclh.Service.Status.ClamavFinal.{clamav_processing-IsFinal}
use icapegclh.Service.Echo
use icapegclh.Service.Hashlookup
use icapegclh.Service.Clamav

module _ (ext : External) (src : Source) where
  -- Whatever the service and the messages, a reply to a whole body that is returned has the status
  -- 200, 204, 400, 408 or 500, so it is never 100.
  pub processing-IsFinal :
      (service : Service) (icap_header : Header) (s s' : HttpMsg) (reply : Reply)
      → processing ext src service false icap_header s ≡ done (reply, s')
      → IsFinal reply.status
  unfolding processing
  processing-IsFinal (echo e) h s s' reply eq =
      (echo_processing-IsFinal ext src e h).at s reply s' eq
  processing-IsFinal (hashlookup l) h s s' reply eq =
      (hashlookup_processing-IsFinal ext src l h).at s reply s' eq
  processing-IsFinal (clamav c) h s s' reply eq =
      (clamav_processing-IsFinal ext src c h).at s reply s' eq

  -- Whatever the service, a reply to a preview that is returned is 100 with no message, and the
  -- messages are left as they were, their bodies unread.
  pub processing-preview :
      (service : Service) (icap_header : Header) (s s' : HttpMsg) (reply : Reply)
      → processing ext src service true icap_header s ≡ done (reply, s')
      → (reply.status ≡ 100) × (reply.message ≡ nil_message) × (s' ≡ s)
  unfolding processing Echo.processing Hashlookup.processing Hashlookup.is_byte_range
      Clamav.processing Clamav.is_byte_range log_http_msg_headers exchange
  processing-preview (echo e) h s s' reply eq = ground arith
  processing-preview (hashlookup l) h s s' reply eq = ground arith
  processing-preview (clamav c) h s s' reply eq = ground arith
