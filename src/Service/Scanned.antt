-- ===== src/Service/Scanned.antt =====
-- service/services/clamav: the statuses that can follow a scan.
use icapegclh.Prelude.{ℕ, ◌≡◌, ◌≢◌, ◌==◌}
use icapegclh.Prelude.Outcome.{done}
use icapegclh.Http.{HttpMsg}
use icapegclh.External.{External, ScanResult, ScanStream, scan_error, scan_closed, scan_open}
use icapegclh.Settings.{Source}
use icapegclh.Exchange.Ensures.{Ensures, Ensures-if, ensures_rules}
use icapegclh.Service.Reply.{Reply, Extracted}
use icapegclh.Service.Clamav
use icapegclh.Service.Clamav.Config.{Clamav}
use icapegclh.Service.Verdicts.{scan-panics}

-- The statuses of a reply after a scan.
pub data Scanned : ℕ → Type 0 where
  replaced : Scanned 200
  passed : Scanned 204
  failed : Scanned 500

abbrev ReplyScanned : Reply → Type 0
ReplyScanned r = Scanned r.status

replaced_200 : Scanned 200
replaced_200 = replaced

passed_204 : Scanned 204
passed_204 = passed

failed_500 : Scanned 500
failed_500 = failed

ruleset scanned_rules = (replaced_200, passed_204, failed_500)

module _ (ext : External) (src : Source) (c : Clamav) where
  deliver-Scanned : (x : Extracted) → Ensures ReplyScanned (Clamav.deliver ext src c x)
  unfolding Clamav.deliver
  deliver-Scanned x = search (ensures_rules, scanned_rules) depth 12

  block-Scanned :
      (x : Extracted) (r : ScanResult) → Ensures ReplyScanned (Clamav.block ext src c x r)
  unfolding Clamav.block
  block-Scanned x r = search (ensures_rules, scanned_rules) depth 12

  after_scan-Scanned :
      (x : Extracted) (r : ScanResult) → Ensures ReplyScanned (Clamav.after_scan ext src c x r)
  unfolding Clamav.after_scan
  after_scan-Scanned x r =
      Ensures-if (r.status == "FOUND") _ _ (block-Scanned x r) (deliver-Scanned x)

  after_stream-Scanned :
      (x : Extracted) (r : ScanStream) → Ensures ReplyScanned (Clamav.after_stream ext src c x r)
  unfolding Clamav.after_stream Clamav.not_finished
  after_stream-Scanned x (scan_error err) = search (ensures_rules, scanned_rules)
  after_stream-Scanned x (scan_closed results) = after_scan-Scanned x _
  after_stream-Scanned x scan_open = search ensures_rules

  scan-Ensures : (x : Extracted) → Ensures ReplyScanned (Clamav.scan ext src c x)
  unfolding Clamav.scan
  scan-Ensures x = after_stream-Scanned x _

  -- If the ClamAV service's scan returns a reply, then the daemon's stream was not left open, and the
  -- reply has the status 200, 204 or 500: a scan that takes longer than five seconds is never answered
  -- with 408 or 400.
  pub scan-Scanned :
      (x : Extracted) (s s' : HttpMsg) (reply : Reply)
      → Clamav.scan ext src c x s ≡ done (reply, s')
      → (ext.scan_stream c.socket_path x.file ≢ scan_open) × Scanned reply.status
  scan-Scanned x s s' reply e = (
    λ open_stream. absurd (cc (scan-panics ext src c x s open_stream, e)),
    (scan-Ensures x).at s reply s' e,
  )
