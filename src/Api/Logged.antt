-- ===== src/Api/Logged.antt =====
-- api/icap-request.go: what the request handler logs of an exchange. The maps that go to
-- `json.Marshal` are built here; the text that it makes of them, and the logger, are left out.
pub mod Complete
use icapegclh.Prelude.{ℕ, String, Bool, not, ◌&&◌, ◌<>◌, List, [], ◌∷◌, nat_eq, ◌==◌, if◌then◌else◌}
use icapegclh.Consts.{icap_mode_req, ok_status_code, no_modification_status_code}
use icapegclh.Header.{Header, insert}
use icapegclh.Service.Reply.{Reply}

-- The values of a map `map[string]interface{}` of logged headers.
pub data Logged : Type 0 where
  url : String → Logged
  status_code : ℕ → Logged
  header_values : List String → Logged
  http_message : List (String × String) → Logged

abbrev pub LoggedMap : Type 0
LoggedMap = List (String × Logged)

-- The values of `generalReqResp`.
pub data Section : Type 0 where
  vendor_messages : List (String × String) → Section
  icap_headers : LoggedMap → Section

-- `for key, value := range header { …; logged[key] = value }`. The text `values` that the loop joins
-- is not read again. The order of a map's range is not fixed, and its keys are distinct.
unfoldable pub log_each : Header → LoggedMap → LoggedMap
log_each [] logged = logged
log_each ((key, value) ∷ header) logged = insert key (header_values value) (log_each header logged)

-- `"icap://" + i.req.URL.Host + "/" + i.serviceName`
abbrev pub requested_url : (host service_name : String) → String
requested_url host service_name = (("icap://" <> host) <> "/") <> service_name

-- `LogICAPReqHeaders`, with `host` for `i.req.URL.Host`.
unfoldable pub log_icap_req_headers : (host service_name : String) → Header → LoggedMap
log_icap_req_headers host service_name header =
    log_each header (("ICAP-Requested-URL", url (requested_url host service_name)) ∷ [])

-- `LogICAPResHeaders`
unfoldable pub log_icap_res_headers : ℕ → Header → LoggedMap
log_icap_res_headers status h = log_each h (("ICAP-Response-Status-Code", status_code status) ∷ [])

-- The two fields of the handler.
pub record General : Type 0 where
  pub general_req_headers : LoggedMap
  pub general_resp_headers : LoggedMap

-- The default branch of `RequestProcessing`, before `RespAndReqMods`.
unfoldable pub log_request : (host service_name : String) → Header → General → General
log_request host service_name header g = record g {
  general_req_headers = log_icap_req_headers host service_name header;
}

-- The results of `Processing` that are logged, and the status.
pub record Results : Type 0 where
  pub status : ℕ
  pub before : List (String × String)
  pub after : List (String × String)
  pub vendor_msgs : List (String × String)

-- The status after the `switch` of `RespAndReqMods`: 200 is answered for a 204 that is not allowed.
unfoldable pub answered_status : (is_204_allowed : Bool) → ℕ → ℕ
answered_status is_204_allowed status =
    if nat_eq status no_modification_status_code && not is_204_allowed
    then ok_status_code
    else status

abbrev pub results_of : (is_204_allowed : Bool) → Reply → Results
results_of is_204_allowed reply = record {
  status = answered_status is_204_allowed reply.status;
  before = reply.headers_before;
  after = reply.headers_after;
  vendor_msgs = reply.vendor_msgs;
}

-- `allHeaders`: the two maps of the handler, with `h` for its ICAP headers.
unfoldable pub update_general : Header → Results → General → General
update_general h r g =
    let responded = log_icap_res_headers r.status h in
    record {
      general_req_headers = insert "HTTP-Message" (http_message r.before) g.general_req_headers;
      general_resp_headers =
          if nat_eq r.status ok_status_code
          then insert "HTTP-Message" (http_message r.after) responded
          else responded;
    }

-- `allHeaders`: the map that is logged.
unfoldable pub general_req_resp :
    (method_name : String) → Results → General → List (String × Section)
general_req_resp method_name r g =
    let vendor : List (String × Section) =
      ("Vendor-Messages", vendor_messages r.vendor_msgs) ∷ [] in
    if method_name == icap_mode_req
    then insert "ICAP-REQMOD-Response" (icap_headers g.general_resp_headers)
        (insert "ICAP-REQMOD-Request" (icap_headers g.general_req_headers) vendor)
    else insert "ICAP-RESPMOD-Response" (icap_headers g.general_resp_headers)
        (insert "ICAP-RESPMOD-Request" (icap_headers g.general_req_headers) vendor)

unfoldable pub all_headers :
    (method_name : String) → Header → Results → General → General × List (String × Section)
all_headers method_name h r g =
    let g' = update_general h r g in (g', general_req_resp method_name r g')

-- The call at the end of `RespAndReqMods`.
unfoldable pub log_answer :
    (method_name : String)
    → (is_204_allowed : Bool) → Header
    → Reply
    → General
    → General × List (String × Section)
log_answer method_name is_204_allowed h reply g =
    all_headers method_name h (results_of is_204_allowed reply) g

-- The OPTIONS branch of `RequestProcessing`: the map that is logged, with `header` for the request's
-- headers and `h` for the headers of the answer.
unfoldable pub options_req_resp :
    (host service_name : String) → (header h : Header) → List (String × Section)
options_req_resp host service_name header h =
    insert "ICAP-OPTIONS-Response" (icap_headers (log_icap_res_headers ok_status_code h))
      (("ICAP-OPTIONS-Request", icap_headers (log_icap_req_headers host service_name header)) ∷ [])
