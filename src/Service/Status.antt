-- ===== src/Service/Status.antt =====
-- The statuses that the services return.
pub mod EchoFinal
pub mod HashlookupFinal
pub mod ClamavFinal
use icapegclh.Prelude.{
  ℕ, String, Bool, true, false, ◌≡◌, ◌≢◌, refl, Option, none, some, List, [], arith, if◌then◌else◌,
}
use icapegclh.FormPart.{Bytes}
use icapegclh.Header.{Header}
use icapegclh.Http.{Message}
use icapegclh.External.{External}
use icapegclh.Settings.{Source}
use icapegclh.ContentTypes.{ContentType}
use icapegclh.Exchange.{M, ◌>>=◌, pure, lift}
use icapegclh.Exchange.Ensures.{Ensures, Ensures-pure, Ensures-bind_after, ensures_rules}
use icapegclh.GeneralFunc.Extensions.{
  Decision, decide, process, reject, bypass, FileCheck, reject_file, bypass_file, apply_decision,
  check_the_extension,
}
use icapegclh.Extension.{Extension}
use icapegclh.GeneralFunc.Pages.{if_max_file_size_exc}
use icapegclh.Service.Reply.{Reply, Extracted}

-- The statuses of a reply that is final: the request handler answers each of them.
pub data IsFinal : ℕ → Type 0 where
  ok : {n : ℕ} → n ≡ 200 → IsFinal n
  no_modification : {n : ℕ} → n ≡ 204 → IsFinal n
  bad_request : {n : ℕ} → n ≡ 400 → IsFinal n
  time_out : {n : ℕ} → n ≡ 408 → IsFinal n
  server_error : {n : ℕ} → n ≡ 500 → IsFinal n

abbrev pub SizeIsFinal : ℕ × Option Bytes × Message → Type 0
SizeIsFinal (status, page, m) = IsFinal status

pub final_200 : IsFinal 200
final_200 = ok refl

pub final_204 : IsFinal 204
final_204 = no_modification refl

pub final_400 : IsFinal 400
final_400 = bad_request refl

pub final_408 : IsFinal 408
final_408 = time_out refl

pub final_500 : IsFinal 500
final_500 = server_error refl

pub ruleset final_rules = (final_200, final_204, final_400, final_408, final_500)

abbrev pub CheckIsFinal : Bool × ℕ × Message → Type 0
CheckIsFinal (is_process, status, m) = is_process ≡ false → IsFinal status

abbrev pub ReplyIsFinal : Reply → Type 0
ReplyIsFinal r = IsFinal r.status

module _ (ext : External) (src : Source) where
  reject_file-IsFinal : (c : FileCheck) → Ensures CheckIsFinal (reject_file ext src c)
  unfolding reject_file
  reject_file-IsFinal c = search (ensures_rules, final_rules) depth 12

  bypass_file-IsFinal : (c : FileCheck) → Ensures CheckIsFinal (bypass_file ext src c)
  unfolding bypass_file
  bypass_file-IsFinal c = search (ensures_rules, final_rules) depth 12

  pub check_the_extension-IsFinal :
      (e : String) (arr : List Extension) (ps rs bs : List String) (c : FileCheck)
      → Ensures CheckIsFinal (check_the_extension ext src e arr ps rs bs c)
  unfolding check_the_extension
  check_the_extension-IsFinal e arr ps rs bs c = go (decide e ps rs bs arr)
    where
      go : (d : Decision) → Ensures CheckIsFinal (apply_decision ext src d c)
      go process = unfold apply_decision in Ensures-pure _ (λ h. absurd (cc))
      go reject = unfold apply_decision in reject_file-IsFinal c
      go bypass = unfold apply_decision in bypass_file-IsFinal c

  pub if_max_file_size_exc-IsFinal :
      (metadata : String) (orig : Bool) (name method : String) (file : Bytes) (page size : String)
      → Ensures SizeIsFinal (if_max_file_size_exc ext src metadata orig name method file page size)
  unfolding if_max_file_size_exc
  if_max_file_size_exc-IsFinal metadata orig name method file page size =
      search (ensures_rules, final_rules) depth 12
