-- ===== src/Tests/Requests.antt =====
-- Requests to the service "filter" of the vendor "echo".
use icapegclh.Prelude.{suc, String, Bool, true, false, ◌≡◌, refl, none, some, [], ◌∷◌}
use icapegclh.Prelude.Outcome.{Outcome, done, panicked}
use icapegclh.FormPart.{Bytes}
use icapegclh.Header
use icapegclh.Http.{Url}
use icapegclh.Exchange.{exchange}
use icapegclh.Service.Dispatch
use icapegclh.Service.Echo
use icapegclh.GeneralFunc.Extensions
use icapegclh.GeneralFunc.Files
use icapegclh.GeneralFunc.Headers
use icapegclh.GeneralFunc.Messages
use icapegclh.Api.Handler.{Handler, IcapRequest, H, pure, abort}
use icapegclh.Api.Initialization
use icapegclh.Api.Initialization.{Initialized, proceed, method_not_allowed, request_initialization}
use icapegclh.Api.Initialization.Outcomes.{heads, Begun, request_initialization-Begun}
use icapegclh.Api.Responding
use icapegclh.Api.Responding.{call_mods, resp_and_req_mods}
use icapegclh.Api.Responding.Answered.{Answered}
use icapegclh.Api.Responding.Rounds.{resp_and_req_mods-Answered}
use icapegclh.Api.Responding.Calls.{resp_and_req_mods-calls, resp_and_req_mods-shadow}
use icapegclh.Api.Serving
use icapegclh.Api.Serving.{is_partial, is_preview, to_icapeg_serve, new_icap_request}
use icapegclh.Api.Serving.OneHead.{to_icapeg_serve-heads}
use icapegclh.Tests.{libraries, source, page_request, page_response}
use icapegclh.Tests.Startup.{started, loaded}

-- A RESPMOD request with a preview.
abbrev pub respmod : IcapRequest
respmod = record {
  method = "RESPMOD";
  url_path = "/filter";
  header = ("Allow", "204" ∷ []) ∷ ("Preview", "2" ∷ []) ∷ [];
  end_indicator = "0";
  org_request = none;
  request = some page_request;
  response = some page_response;
}

abbrev pub whole : Bytes
whole = b'h' ∷ b'i' ∷ b'!' ∷ []

abbrev kept : Bytes → Bytes
kept b = b

abbrev accepts : String → Url → Bool
accepts _ _ = true

abbrev arrived : Handler
arrived = new_icap_request started respmod [] "m"

-- The handler when the service is called, with shadow mode off or on.
abbrev pub called : Bool → Handler
called on = record {
  w = [];
  req = respmod;
  h = [];
  is_204_allowed = true;
  is_shadow_service_enabled = on;
  app_cfg = started;
  service_name = "filter";
  method_name = "RESPMOD";
  vendor = "echo";
  x_icap_metadata = "m";
}

abbrev pub handler_of : {A : Type 0} → Outcome (A × Handler) → Handler
handler_of (done (_, s)) = s
handler_of panicked = called false

abbrev answered_run : Outcome (Unit {0} × Handler)
answered_run = resp_and_req_mods libraries source loaded 2 whole true (called false)

abbrev shadow_run : Outcome (Unit {0} × Handler)
shadow_run = resp_and_req_mods libraries source loaded 2 whole true (called true)

-- What a round of the service "filter" calls.
unfoldable pub service_run : Unit {0}
unfolding call_mods Responding.open_messages Responding.call_service Dispatch.get_service
    icapegclh.Service.Echo.Config.new_echo_service Responding.use_service Responding.use_result
    Dispatch.processing Echo.processing exchange Headers.log_http_msg_headers
    Responding.after_service Responding.take_the_rest Responding.answer Echo.extract_file
    Files.copying_file_to_the_buffer Files.get_file_name Files.get_mime_extension
    Files.preparing_file_after_scanning Echo.process_file Echo.checked Echo.check_file
    Echo.extension_of Echo.after_check Echo.is_over_size Echo.deliver
    Messages.returning_http_message_with_file Extensions.check_the_extension
    Extensions.apply_decision Extensions.decide Extensions.in_string_slice Header.lookup
    Header.insert Header.remove Header.get Header.set Headers.log_header Headers.log_values
    icapegclh.Text.itoa icapegclh.Extension.init_exts_arr icapegclh.Text.split_char
    icapegclh.Text.slice_from icapegclh.Text.path_base
service_run = tt

-- What the start of a request calls.
start_run : Unit {0}
unfolding request_initialization Initialization.name_in_url new_icap_request
    Initialization.is_service_exists Initialization.check_method Initialization.is_method_allowed
    Initialization.enter_service Initialization.with_service
    Initialization.adding_istag_service_headers Initialization.choose_mode
start_run = tt

-- What stands between the two.
serve_run : Unit {0}
unfolding to_icapeg_serve Serving.process_as Serving.request_processing Serving.is_partial
    Serving.copy_messages Serving.is_preview Serving.host_header Initialization.is_204_allowed
    icapegclh.Text.contains
serve_run = tt

answers : answered_run ≡ done (tt, handler_of answered_run)
unfolding service_run
answers = refl

shadows : shadow_run ≡ done (tt, handler_of shadow_run)
unfolding service_run
shadows = refl

resp_and_req_mods-Answered_example : Answered (called false) (handler_of answered_run)
resp_and_req_mods-Answered_example =
    resp_and_req_mods-Answered libraries source loaded whole true (called false)
      (handler_of answered_run) refl answers

resp_and_req_mods-shadow_example : (handler_of shadow_run).w ≡ []
resp_and_req_mods-shadow_example =
    resp_and_req_mods-shadow libraries source loaded whole 1 true (called true)
      (handler_of shadow_run) refl shadows

-- An end without a panic, for the calls that are left out.
abbrev pure_spent : H (Unit {0})
pure_spent = pure tt

resp_and_req_mods-calls_example :
    call_mods libraries source loaded pure_spent 7 whole true (called false) ≡ answered_run
resp_and_req_mods-calls_example =
    resp_and_req_mods-calls libraries source loaded whole pure_spent abort 5 true (called false)

abbrev begun : Outcome (Initialized × Handler)
begun = request_initialization libraries loaded 1700000000 kept arrived

begins : begun ≡ done (proceed, handler_of begun)
unfolding start_run service_run
begins = refl

request_initialization-Begun_example : Begun libraries kept proceed arrived (handler_of begun)
request_initialization-Begun_example =
    request_initialization-Begun libraries kept loaded 1700000000 arrived (handler_of begun) proceed
      begins

abbrev served : Outcome (Initialized × Handler)
served = to_icapeg_serve libraries source loaded 1700000000 kept accepts whole arrived

serves : served ≡ done (proceed, handler_of served)
unfolding serve_run start_run service_run
serves = refl

to_icapeg_serve-heads_example : heads (handler_of served).w ≡ suc (heads arrived.w)
unfolding new_icap_request
to_icapeg_serve-heads_example =
    to_icapeg_serve-heads libraries source loaded whole 1700000000 kept accepts arrived
      (handler_of served) proceed refl serves

abbrev previewed : Outcome (Bool × Handler)
previewed = is_partial libraries accepts (called false)
