-- ===== src/Tests/Answers.antt =====
-- A refused request's page, an OPTIONS answer, and a request that is sent back.
use icapegclh.Prelude.{false, ◌≡◌, refl, none, some, [], ◌∷◌}
use icapegclh.Prelude.Outcome.{Outcome, done}
use icapegclh.FormPart.{Bytes}
use icapegclh.Header
use icapegclh.Http.{Url}
use icapegclh.GeneralFunc.Extensions
use icapegclh.GeneralFunc.Messages
use icapegclh.Service.Reply.{Reply}
use icapegclh.Api.Handler.{Handler, IcapRequest, own}
use icapegclh.Api.Responding
use icapegclh.Api.Responding.{open_messages, call_service, resp_and_req_mods}
use icapegclh.Api.Responding.AsItCame.{SentBack, resp_and_req_mods-SentBack}
use icapegclh.Api.Serving.{options_mode, get_enabled_methods}
use icapegclh.Api.Serving.Options.{Described, options_mode-Described}
use icapegclh.Tests.{libraries, source, page_request, page_url}
use icapegclh.Tests.Startup.{started, filter_info, loaded}
use icapegclh.Tests.Requests.{called, respmod, handler_of, service_run}

modes : get_enabled_methods filter_info ≡ done "RESPMOD"
unfolding get_enabled_methods
modes = refl

found : Header.lookup "filter" started.services_instances ≡ some filter_info
unfolding Header.lookup
found = refl

options_mode-Described_example :
    (s' : Handler) × (options_mode libraries (called false) ≡ done (tt, s'))
    × Described filter_info "RESPMOD" (called false) s'
options_mode-Described_example =
    options_mode-Described libraries refl refl refl refl (called false) filter_info "RESPMOD" found
      modes

-- A REQMOD request for a file that is bypassed, with its copy.
abbrev text_url : Url
text_url = record page_url { path = "/a.txt" }

abbrev sent : Bytes
sent = b'a' ∷ b'b' ∷ []

abbrev reqmod : IcapRequest
reqmod = record respmod {
  method = "REQMOD";
  org_request = some (own "POST" text_url sent);
  request = some (record page_request {
    method = "POST";
    url = text_url;
    request_uri = "/a.txt";
    body = sent;
  });
  response = none;
}

abbrev copied : Handler
copied = record (called false) { req = reqmod; method_name = "REQMOD"; is_204_allowed = false }

abbrev sent_run : Outcome (Unit {0} × Handler)
sent_run = resp_and_req_mods libraries source loaded 2 [] false copied

sends : sent_run ≡ done (tt, handler_of sent_run)
unfolding service_run Extensions.bypass_file Messages.if_icap_status_is_204
    Messages.returning_http_message Messages.set_message_body Responding.no_modification
    Messages.pair_of
sends = refl

resp_and_req_mods-SentBack_example :
    (reply : Reply) × (opened : Handler) × (replied : Handler) × (open_messages copied
      ≡ done (tt, opened))
    × (call_service libraries source loaded false opened ≡ done (reply, replied))
    × (reply.status ≡ 204 → SentBack libraries source loaded sent copied (handler_of sent_run))
resp_and_req_mods-SentBack_example =
    resp_and_req_mods-SentBack libraries source loaded [] 1 copied (handler_of sent_run) "POST"
      text_url sent refl refl refl refl sends
