-- ===== src/Service/Policy.antt =====
-- What a service promises of a RESPMOD file, in one table: by the list that the file's extension falls
-- under, by its size, and by what the scanner says of it.
pub mod Checks
pub mod Sizes
pub mod LookupVerdict
pub mod EchoPolicy
pub mod HashlookupPolicy
pub mod ClamavPolicy
use icapegclh.Prelude.{ℕ, String, Bool, true, ◌≡◌, some, if◌then◌else◌}
use icapegclh.Prelude.Int.{ℤ, pos}
use icapegclh.Prelude.Outcome.{Outcome, done}
use icapegclh.FormPart.{Bytes}
use icapegclh.Http.{HttpMsg, Response, nil_message, response_message}
use icapegclh.External.{External}
use icapegclh.GeneralFunc.Extensions.{Decision, process, reject, bypass}
use icapegclh.GeneralFunc.Messages.{with_file_response}
use icapegclh.Service.Reply.{Reply}
use icapegclh.Service.Verdicts.{Blocked}

-- What becomes of a response: it goes on with the file that it came with, it is replaced by a block
-- page of a code (with the page as its body or without a body), or the client gets an error status and no message.
pub data Verdict : Type 0 where
  kept : ℕ → Verdict
  blocked : ℤ → Bool → Outcome Bytes → Verdict
  failed : ℕ → Verdict

-- The table. The size and the scanner count only for a file that is to be processed.
unfoldable pub policy :
    Decision
    → (return_400 over_size return_orig : Bool) (rejected too_large : Outcome Bytes)
      (scanned : Verdict)
    → Verdict
policy process return_400 over_size return_orig rejected too_large scanned =
    if over_size
    then if return_orig then kept 204 else blocked (pos 403) true too_large
    else scanned
policy reject return_400 over_size return_orig rejected too_large scanned =
    if return_400 then failed 400 else blocked (pos 403) true rejected
policy bypass return_400 over_size return_orig rejected too_large scanned = kept 204

-- A reply and the messages after it carry out a verdict on a response.
unfoldable pub Implements : External → Response → Verdict → Reply → HttpMsg → Type 0
Implements ext resp (kept status) reply s' =
    (reply.status ≡ status)
    × (reply.message ≡ response_message (with_file_response ext resp.body resp))
    × (s'.response ≡ some (with_file_response ext resp.body resp))
Implements ext resp (blocked code has_body page) reply s' = Blocked code has_body page reply s'
Implements ext resp (failed status) reply s' =
    (reply.status ≡ status) × (reply.message ≡ nil_message)

-- A run that returns, and carries out a verdict.
abbrev pub Carries : External → Response → Verdict → Outcome (Reply × HttpMsg) → Type 0
Carries ext resp verdict run =
    (reply : Reply) × (s' : HttpMsg) × (run ≡ done (reply, s'))
    × Implements ext resp verdict reply s'
