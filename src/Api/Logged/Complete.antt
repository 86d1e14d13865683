-- ===== src/Api/Logged/Complete.antt =====
-- What the logged maps hold.
use icapegclh.Prelude.{
  ℕ, String, Bool, true, false, ◌≡◌, refl, Option, none, some, List, [], ◌∷◌, nat_eq, ◌==◌, ◌&&◌,
  if◌then◌else◌,
}
use icapegclh.Header.{Header, lookup, insert, remove, lookup-insert}
use icapegclh.Service.Reply.{Reply}
use icapegclh.Api.Logged.{
  Logged, url, status_code, header_values, http_message, LoggedMap, Section, vendor_messages,
  icap_headers, log_each, requested_url, log_icap_req_headers, log_icap_res_headers, log_request,
  General, Results, update_general, general_req_resp, all_headers, results_of, log_answer,
}

-- A header's values where there are any, else what stands under the key otherwise.
abbrev pub or_else : Option (List String) → Option Logged → Option Logged
or_else none other = other
or_else (some values) other = some (header_values values)

or_else-if :
    (b : Bool) (values : List String) (o : Option (List String)) (other : Option Logged)
    → (if b then some (header_values values) else or_else o other)
      ≡ or_else (if b then some values else o) other
or_else-if true values o other = refl
or_else-if false values o other = refl

lookup-log_each :
    (key : String) (header : Header) (logged : LoggedMap)
    → lookup key (log_each header logged) ≡ or_else (lookup key header) (lookup key logged)
unfolding log_each lookup
lookup-log_each key [] logged = refl
lookup-log_each key ((name, values) ∷ header) logged =
    rw
      (
        lookup-insert name key (header_values values) (log_each header logged),
        lookup-log_each key header logged,
      )
      (or_else-if (name == key) values (lookup key header) (lookup key logged))

abbrev pub only_at : {V : Type 0} → String → V → String → Option V
only_at name value key = if name == key then some value else none

-- Each section of the logged map stands under the name of the request's method, and under no other.
abbrev pub Sectioned :
    (reqmod : Bool) (req resp vendor : Section) → List (String × Section) → Type 0
Sectioned reqmod req resp vendor logged =
    (lookup "ICAP-REQMOD-Request" logged ≡ (if reqmod then some req else none))
    × (lookup "ICAP-REQMOD-Response" logged ≡ (if reqmod then some resp else none))
    × (lookup "ICAP-RESPMOD-Request" logged ≡ (if reqmod then none else some req))
    × (lookup "ICAP-RESPMOD-Response" logged ≡ (if reqmod then none else some resp))
    × (lookup "Vendor-Messages" logged ≡ some vendor)

-- The two maps of the handler and the map that is logged, after a request with the headers `header`
-- was answered with the headers `h`.
pub record Complete (host service_name method_name : String) (header h : Header) (r : Results)
    (g : General) (logged : List (String × Section)) : Type 0 where
  pub request :
      (key : String)
      → lookup key g.general_req_headers ≡ (
          if "HTTP-Message" == key
          then some (http_message r.before)
          else or_else
              (lookup key header)
              (only_at "ICAP-Requested-URL" (url (requested_url host service_name)) key))
  pub response :
      (key : String)
      → lookup key g.general_resp_headers ≡ (
          if nat_eq r.status 200 && ("HTTP-Message" == key)
          then some (http_message r.after)
          else or_else
              (lookup key h)
              (only_at "ICAP-Response-Status-Code" (status_code r.status) key))
  pub sections :
      Sectioned
        (method_name == "REQMOD")
        (icap_headers g.general_req_headers)
        (icap_headers g.general_resp_headers)
        (vendor_messages r.vendor_msgs)
        logged

lookup-log_icap_req_headers :
    (host service_name : String) (header : Header) (key : String)
    → lookup key (log_icap_req_headers host service_name header)
      ≡ or_else
          (lookup key header)
          (only_at "ICAP-Requested-URL" (url (requested_url host service_name)) key)
unfolding log_icap_req_headers lookup
lookup-log_icap_req_headers host service_name header key = lookup-log_each key header _

lookup-log_icap_res_headers :
    (status : ℕ) (h : Header) (key : String)
    → lookup key (log_icap_res_headers status h)
      ≡ or_else (lookup key h) (only_at "ICAP-Response-Status-Code" (status_code status) key)
unfolding log_icap_res_headers lookup
lookup-log_icap_res_headers status h key = lookup-log_each key h _

-- With the message of a successful answer.
lookup-with_message :
    (ok : Bool) (after : List (String × String)) (logged : LoggedMap) (key : String)
    → lookup key (if ok then insert "HTTP-Message" (http_message after) logged else logged)
      ≡ (if ok && ("HTTP-Message" == key) then some (http_message after) else lookup key logged)
lookup-with_message true after logged key =
    lookup-insert "HTTP-Message" key (http_message after) logged
lookup-with_message false after logged key = refl

sections-Sectioned :
    (reqmod : Bool) (req resp vendor : Section)
    → Sectioned reqmod req resp vendor (
        let rest : List (String × Section) = ("Vendor-Messages", vendor) ∷ [] in
        if reqmod
        then insert "ICAP-REQMOD-Response" resp (insert "ICAP-REQMOD-Request" req rest)
        else insert "ICAP-RESPMOD-Response" resp (insert "ICAP-RESPMOD-Request" req rest))
unfolding lookup insert remove
sections-Sectioned true req resp vendor = (refl, refl, refl, refl, refl)
sections-Sectioned false req resp vendor = (refl, refl, refl, refl, refl)

all_headers-Complete :
    (host service_name method_name : String) (header h : Header) (r : Results) (g : General)
    → let (g', logged) = all_headers method_name h r (log_request host service_name header g) in
      Complete host service_name method_name header h r g' logged
unfolding all_headers update_general general_req_resp log_request
all_headers-Complete host service_name method_name header h r g = record {
  request = λ key.
      rw
        (
          lookup-insert "HTTP-Message" key (http_message r.before)
              (log_icap_req_headers host service_name header),
          lookup-log_icap_req_headers host service_name header key,
        )
        refl;
  response = λ key.
      rw
        (
          lookup-with_message (nat_eq r.status 200) r.after (log_icap_res_headers r.status h) key,
          lookup-log_icap_res_headers r.status h key,
        )
        refl;
  sections = sections-Sectioned (method_name == "REQMOD") _ _ _;
}

-- When a request's headers have been recorded and its answer is logged, the request's map holds the
-- message before processing, every other header of the request with all its values, and the requested
-- URL where no header has its name; the response's map holds the ICAP headers of the answer with all
-- their values, the status where no header has its name (200 for a 204 that is not allowed), and, only
-- if that status is 200, the message after processing; and the logged map holds the two under the names
-- of the request's method and of no other, beside the vendor's messages.
pub log_answer-Complete :
    (host service_name method_name : String) (is_204_allowed : Bool) (header h : Header)
    (reply : Reply) (g : General)
    → let (g', logged) =
        log_answer method_name is_204_allowed h reply (log_request host service_name header g) in
      Complete host service_name method_name header h (results_of is_204_allowed reply) g' logged
unfolding log_answer
log_answer-Complete host service_name method_name is_204_allowed header h reply g =
    all_headers-Complete host service_name method_name header h (results_of is_204_allowed reply) g
