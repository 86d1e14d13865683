-- ===== src/Service/Clean.antt =====
-- What the scanning services reply when the scanner has found nothing.
use icapegclh.Prelude.{false, ◌≡◌, ◌==◌, refl, ap, if◌then◌else◌, some}
use icapegclh.Prelude.Outcome.{done}
use icapegclh.Http.{HttpMsg, Request, Response, response_message}
use icapegclh.External.{External, ScanResult}
use icapegclh.Settings.{Source}
use icapegclh.Exchange.{exchange}
use icapegclh.GeneralFunc.Files.{preparing_file_after_scanning}
use icapegclh.GeneralFunc.Headers.{log_header, log_http_msg_headers}
use icapegclh.GeneralFunc.Messages.{
  with_file_response, returning_http_message_with_file, returning_http_message,
  if_icap_status_is_204, set_message_body, pair_of,
}
use icapegclh.Service.Reply.{Reply, Extracted, reply_with}
use icapegclh.Service.Hashlookup
use icapegclh.Service.Hashlookup.{is_known}
use icapegclh.Service.Hashlookup.Config.{Hashlookup}
use icapegclh.Service.Clamav
use icapegclh.Service.Clamav.{last_result}
use icapegclh.Service.Clamav.Config.{Clamav}

-- A reply 204 with the response, the scanned file as its body.
pub record Passed (ext : External) (x : Extracted) (resp : Response) (reply : Reply) (s' : HttpMsg)
    : Type 0 where
  pub status : reply.status ≡ 204
  pub message : reply.message ≡ response_message (with_file_response ext x.file resp)
  pub kept : s'.response ≡ some (with_file_response ext x.file resp)

module _ (ext : External) (src : Source) (x : Extracted) (r : Request) (resp : Response) where
  abbrev before : HttpMsg
  before = record { request = some r; response = some resp }

  abbrev after : HttpMsg
  after = record { request = some r; response = some (with_file_response ext x.file resp) }

  module _ (h : Hashlookup) where
    pub hashlookup_deliver-Passed :
        h.method_name ≡ "RESPMOD"
        → (reply : Reply) × (s' : HttpMsg) × (Hashlookup.deliver ext src h x before
            ≡ done (reply, s'))
          × Passed ext x resp reply s'
    unfolding Hashlookup.deliver preparing_file_after_scanning returning_http_message_with_file
        log_http_msg_headers exchange
    hashlookup_deliver-Passed m = (
      reply_with x 204 (response_message (with_file_response ext x.file resp))
          (some x.service_headers) (log_header resp.header),
      after,
      rw m refl,
      record { status = refl; message = refl; kept = refl },
    )

  module _ (c : Clamav) where
    pub clamav_deliver-Passed :
        c.method_name ≡ "RESPMOD"
        → (reply : Reply) × (s' : HttpMsg) × (Clamav.deliver ext src c x before ≡ done (reply, s'))
          × Passed ext x resp reply s'
    unfolding Clamav.deliver if_icap_status_is_204 preparing_file_after_scanning
        returning_http_message set_message_body pair_of log_http_msg_headers exchange
    clamav_deliver-Passed m = (
      reply_with x 204 (response_message (with_file_response ext x.file resp))
          (some x.service_headers) (log_header (with_file_response ext x.file resp).header),
      after,
      rw m refl,
      record { status = refl; message = refl; kept = refl },
    )

    pub after_scan-clean :
        (result : ScanResult) (s : HttpMsg)
        → result.status == "FOUND" ≡ false
        → Clamav.after_scan ext src c x result s ≡ Clamav.deliver ext src c x s
    unfolding Clamav.after_scan
    after_scan-clean result s k =
        ap (λ b. (if b then Clamav.block ext src c x result else Clamav.deliver ext src c x) s) k
