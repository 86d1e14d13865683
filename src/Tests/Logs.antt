-- ===== src/Tests/Logs.antt =====
-- What is logged of an exchange.
use icapegclh.Prelude.{false, none, [], ◌∷◌}
use icapegclh.Header.{Header}
use icapegclh.Http.{nil_message}
use icapegclh.Service.Reply.{Reply}
use icapegclh.Api.Logged.{General, log_request, log_answer, results_of}
use icapegclh.Api.Logged.Complete.{Complete, log_answer-Complete}

abbrev sent : Header
sent = ("Allow", "204" ∷ []) ∷ ("Preview", "0" ∷ []) ∷ []

abbrev answered : Header
answered = ("Server", "ICAP" ∷ []) ∷ []

abbrev not_modified : Reply
not_modified = record {
  status = 204;
  message = nil_message;
  service_headers = none;
  headers_before = ("Content-Type", "text/plain") ∷ [];
  headers_after = ("Content-Length", "3") ∷ [];
  vendor_msgs = [];
  icap_header = sent;
}

abbrev at_first : General
at_first = record { general_req_headers = []; general_resp_headers = [] }

log_answer-Complete_example :
    let (g', logged) =
      log_answer "REQMOD" false answered not_modified (log_request "h" "echo" sent at_first) in
    Complete "h" "echo" "REQMOD" sent answered (results_of false not_modified) g' logged
log_answer-Complete_example =
    log_answer-Complete "h" "echo" "REQMOD" false sent answered not_modified at_first
