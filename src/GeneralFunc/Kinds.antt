-- ===== src/GeneralFunc/Kinds.antt =====
-- The kind of the message that a method's answer carries, in general-functions.go.
use mathlib.Core.Path.{subst, sym}
use icapegclh.Prelude.{
  ℕ, String, Bool, true, false, ◌≡◌, refl, ap, ◌∙◌, ◌⊎◌, inl, inr, Option, none, some, List, [],
  ◌∷◌, nat_eq, ◌==◌, eq_iff, arith,
}
use icapegclh.FormPart.{Bytes}
use icapegclh.Http.{
  Message, nil_message, request_message, response_message, whole_message, Request, Response,
}
use icapegclh.External.{External}
use icapegclh.Settings.{Source}
use icapegclh.ContentTypes.{ContentType}
use icapegclh.Extension.{Extension}
use icapegclh.Exchange.{M, maybe}
use icapegclh.Exchange.Ensures.{
  Ensures, Ensures-pure, Ensures-if, Ensures-if_known, Ensures-bind, Ensures-then, Ensures-maybe,
  Ensures-bind_after,
}
use icapegclh.GeneralFunc.Messages.{
  returning_http_message_with_file, returning_http_message, if_icap_status_is_204,
  if_status_is_204_with_file, set_message_body, pair_of,
}
use icapegclh.GeneralFunc.Pages.{if_max_file_size_exc}
use icapegclh.GeneralFunc.Extensions.{
  Decision, decide, process, reject, bypass, FileCheck, reject_file, bypass_file, apply_decision,
  check_the_extension,
}

-- No message, or the message of the method: a request in REQMOD and a response in RESPMOD.
pub data Fits (method_name : String) : Message → Type 0 where
  nothing : Fits method_name nil_message
  a_request : {r : Request} → method_name ≡ "REQMOD" → Fits method_name (request_message r)
  a_response : {r : Response} → method_name ≡ "RESPMOD" → Fits method_name (response_message r)

abbrev pub MadeFits : String → Option (Bytes × Message) → Type 0
MadeFits method_name made =
    (file : Bytes) (m : Message) → made ≡ some (file, m) → Fits method_name m

abbrev pub CheckFits : String → Bool × ℕ × Message → Type 0
CheckFits method_name (is_process, status, m) = Fits method_name m

abbrev pub SizeFits : String → ℕ × Option Bytes × Message → Type 0
SizeFits method_name (status, page, m) = Fits method_name m

-- The two methods with a message.
abbrev pub IsMod : String → Type 0
IsMod method_name = (method_name ≡ "REQMOD") ⊎ (method_name ≡ "RESPMOD")

is_equal : (a b : String) → a ≡ b → (a == b) ≡ true
is_equal a b h = grind (arith, eq_iff a b)

known_eq : (b : Bool) → b ≡ false → b ≡ true → ⊥
known_eq true e f = cc
known_eq false e f = cc

pub not_resp :
    (method_name : String)
    → IsMod method_name
    → (method_name == "RESPMOD") ≡ false
    → method_name ≡ "REQMOD"
not_resp method_name (inl e) h = e
not_resp method_name (inr e) h =
    absurd (known_eq (method_name == "RESPMOD") h (is_equal method_name "RESPMOD" e))

pub is_method : (a b : String) → (a == b) ≡ true → a ≡ b
is_method a b h = grind (arith, eq_iff a b)

not_made : {method_name : String} → MadeFits method_name none
not_made file m e = cc

made_fits :
    {method_name : String} (prep : Bytes) (m : Message)
    → Fits method_name m
    → MadeFits method_name (some (prep, m))
made_fits {method_name} prep m h file m' e =
    subst (Fits method_name) (ap (λ o. elim o [ none ↦ m | some r ↦ r.1 ]) e) h

pub Ensures-made :
    {B : Type 0} {P : B → Type 0} {method_name : String} (made : Option (Bytes × Message)) (n : M B)
    (f : Bytes × Message → M B)
    → MadeFits method_name made
    → Ensures P n
    → ((file : Bytes) (m : Message) → Fits method_name m → Ensures P (f (file, m)))
    → Ensures P (maybe made n f)
unfolding maybe
Ensures-made none n f h hn hf = hn
Ensures-made (some (file, m)) n f h hn hf = hf file m (h file m refl)

pair_of-MadeFits :
    {method_name : String} (m : Message) (prep : Bytes)
    → Fits method_name m
    → MadeFits method_name (pair_of m prep)
unfolding pair_of
pair_of-MadeFits nil_message [] h = not_made
pair_of-MadeFits nil_message (b ∷ prep) h = made_fits (b ∷ prep) nil_message h
pair_of-MadeFits (request_message r) prep h = made_fits prep (request_message r) h
pair_of-MadeFits (response_message r) prep h = made_fits prep (response_message r) h
pair_of-MadeFits (whole_message s) prep h = made_fits prep (whole_message s) h

module _ (method_name : String) (m_known : IsMod method_name) where
  pub set_message_body-Fits :
      (m : Message) (body : Bytes)
      → Fits method_name m
      → Ensures (Fits method_name) (set_message_body m body)
  unfolding set_message_body
  set_message_body-Fits nil_message body h = Ensures-pure _ nothing
  set_message_body-Fits (request_message r) body (a_request e) = Ensures-pure _ (a_request e)
  set_message_body-Fits (response_message r) body (a_response e) =
      Ensures-then _ _ (Ensures-pure _ (a_response e))
  set_message_body-Fits (whole_message _) body h = elim h [ ]

  module _ (ext : External) where
    pub returning_http_message_with_file-Fits :
        (file : Bytes)
        → Ensures (Fits method_name) (returning_http_message_with_file ext method_name file)
    unfolding returning_http_message_with_file
    returning_http_message_with_file-Fits file =
        Ensures-if_known (method_name == "REQMOD") _ _
          (λ e.
            Ensures-bind _ _ (λ r.
              Ensures-then _ _ (Ensures-pure _ (a_request (is_method method_name "REQMOD" e)))))
          (λ _.
            Ensures-if_known (method_name == "RESPMOD") _ _
              (λ e. Ensures-bind _ _ (λ r.
                Ensures-then _ _ (Ensures-pure _ (a_response (is_method method_name "RESPMOD" e)))))
              (λ _. Ensures-pure _ nothing))

    pub if_status_is_204_with_file-Fits :
        (status : ℕ) (file : Bytes) (is_gzip : Bool) (t : Option ContentType) (m : Message)
        (is_err : Bool)
        → Fits method_name m
        → Ensures
            (MadeFits method_name)
            (if_status_is_204_with_file ext method_name status file is_gzip t m is_err)
    unfolding if_status_is_204_with_file
    if_status_is_204_with_file-Fits status file is_gzip t m is_err h =
        Ensures-if _ _ _ (Ensures-pure none not_made) (
          Ensures-bind _ _ (λ prep.
            Ensures-if (nat_eq status 204) _ _
              (Ensures-bind_after _ _ (returning_http_message_with_file-Fits prep)
                (λ m' h'. Ensures-pure (pair_of m' prep) (pair_of-MadeFits m' prep h')))
              (Ensures-pure (some (prep, m)) (made_fits prep m h))))

    returning_http_message-Fits :
        (file : Bytes) → Ensures (Fits method_name) (returning_http_message ext method_name file)
    unfolding returning_http_message
    returning_http_message-Fits file =
        Ensures-if_known (method_name == "REQMOD") _ _
          (λ e.
            Ensures-bind _ _ (λ r.
              Ensures-then _ _ (Ensures-pure _ (a_request (is_method method_name "REQMOD" e)))))
          (λ _.
            Ensures-if_known (method_name == "RESPMOD") _ _
              (λ e. Ensures-bind _ _ (λ r.
                Ensures-then _ _ (Ensures-pure _ (a_response (is_method method_name "RESPMOD" e)))))
              (λ _. Ensures-pure _ nothing))

    -- For the status 204 the message is built anew, whatever was given.
    pub if_icap_status_is_204-Fits :
        (file : Bytes) (is_gzip : Bool) (t : Option ContentType) (m : Message)
        → Ensures
            (MadeFits method_name)
            (if_icap_status_is_204 ext method_name 204 file is_gzip t m)
    unfolding if_icap_status_is_204
    if_icap_status_is_204-Fits file is_gzip t m = Ensures-if _ _ _ (Ensures-pure none not_made) (
        Ensures-bind _ _ (λ prep.
          Ensures-bind_after _ _ (returning_http_message-Fits prep)
            (λ m' h'. Ensures-pure (pair_of m' prep) (pair_of-MadeFits m' prep h'))))

    module _ (src : Source) where
      pub if_max_file_size_exc-Fits :
          (metadata : String) (orig : Bool) (name : String) (file : Bytes) (page size : String)
          → Ensures
              (SizeFits method_name)
              (if_max_file_size_exc ext src metadata orig name method_name file page size)
      unfolding if_max_file_size_exc
      if_max_file_size_exc-Fits metadata orig name file page size =
          Ensures-if _ _ _ (Ensures-pure _ nothing) (
            Ensures-if_known (method_name == "RESPMOD") _ _
              (λ e. Ensures-bind _ _ (λ req. Ensures-bind _ _ (λ p.
                Ensures-then _ _
                  (Ensures-pure _ (a_response (is_method method_name "RESPMOD" e))))))
              (λ e. Ensures-bind _ _ (λ made.
                Ensures-maybe made _ _ (Ensures-pure _ nothing)
                  (λ r. Ensures-pure _ (a_request (not_resp method_name m_known e))))))

      reject_file-Fits :
          (c : FileCheck)
          → c.method_name ≡ method_name
          → Ensures (CheckFits method_name) (reject_file ext src c)
      unfolding reject_file
      reject_file-Fits c same = Ensures-if _ _ _ (Ensures-pure _ nothing) (
          Ensures-if_known (c.method_name == "RESPMOD") _ _
            (λ e. Ensures-bind _ _ (λ p.
              Ensures-then _ _
                (Ensures-pure _ (a_response (sym same ∙ is_method c.method_name "RESPMOD" e)))))
            (λ e. Ensures-bind _ _ (λ made. Ensures-maybe made _ _ (Ensures-pure _ nothing) (λ r.
              Ensures-bind _ _ (λ body. Ensures-pure _ (
                a_request (
                  not_resp method_name m_known (subst (λ n. (n == "RESPMOD") ≡ false) same e))))))))

      bypass_file-Fits :
          (c : FileCheck)
          → c.method_name ≡ method_name
          → Ensures (CheckFits method_name) (bypass_file ext src c)
      unfolding bypass_file
      bypass_file-Fits c same = Ensures-bind _ _ (λ msg.
          Ensures-bind_after _ _
            (subst
              (λ n. Ensures (MadeFits method_name) (
                if_icap_status_is_204 ext n 204 c.file c.is_gzip c.req_content_type
                  (whole_message msg)))
              (sym same)
              (if_icap_status_is_204-Fits c.file c.is_gzip c.req_content_type (whole_message msg)))
            (λ made h. Ensures-made made _ _ h (Ensures-pure _ nothing) (λ file m fit.
              Ensures-bind_after _ _ (set_message_body-Fits m file fit)
                (λ m' h'. Ensures-pure (false, 204, m') h'))))

      pub check_the_extension-Fits :
          (x : String) (arr : List Extension) (ps rs bs : List String) (c : FileCheck)
          → c.method_name ≡ method_name
          → Ensures (CheckFits method_name) (check_the_extension ext src x arr ps rs bs c)
      unfolding check_the_extension
      check_the_extension-Fits x arr ps rs bs c same = go (decide x ps rs bs arr)
        where
          go : (d : Decision) → Ensures (CheckFits method_name) (apply_decision ext src d c)
          go process = unfold apply_decision in Ensures-pure _ nothing
          go reject = unfold apply_decision in reject_file-Fits c same
          go bypass = unfold apply_decision in bypass_file-Fits c same
