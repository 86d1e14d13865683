-- ===== src/Tests/Policies.antt =====
-- Services that return, and whose replies carry out the table.
use icapegclh.Prelude.{true, false, ◌≡◌, refl, some, []}
use icapegclh.Prelude.Outcome.{done}
use icapegclh.Http.{HttpMsg}
use icapegclh.Settings.{read_values_string}
use icapegclh.Exchange.Returns.{Present}
use icapegclh.Service.Reply.{Reply}
use icapegclh.Service.Status.{IsFinal}
use icapegclh.Service.Dispatch.{echo, clamav, processing, get_service}
use icapegclh.Service.Returning.{processing-returns}
use icapegclh.Service.Echo
use icapegclh.Service.Echo.Config.{Echo, new_echo_service}
use icapegclh.Service.Hashlookup
use icapegclh.Service.Clamav
use icapegclh.Service.Policy.{Carries}
use icapegclh.Service.Policy.EchoPolicy
use icapegclh.Service.Policy.EchoPolicy.{echo_processing-Implements}
use icapegclh.Service.Policy.HashlookupPolicy
use icapegclh.Service.Policy.HashlookupPolicy.{hashlookup_processing-Implements}
use icapegclh.Service.Policy.ClamavPolicy
use icapegclh.Service.Policy.ClamavPolicy.{clamav_processing-Implements}
use icapegclh.Api.Handler.{Handler}
use icapegclh.Api.Responding.{resp_and_req_mods}
use icapegclh.Api.Responding.Answered.{Answered}
use icapegclh.Api.Responding.Returning.{resp_and_req_mods-returns}
use icapegclh.Api.Responding.Returning.Steps.{Waiting}
use icapegclh.Tests.{libraries, source, page, page_request, page_response}
use icapegclh.Tests.Startup.{filter_config, loaded}
use icapegclh.Tests.Services.{hash_service, clamav_at, echo_service}
use icapegclh.Tests.Requests.{called, whole}

clamav_processing-Implements_example :
    Carries libraries page_response
      (ClamavPolicy.table libraries source
        (clamav_at "/run/clamd.sock")
        page_request
        page_response
        refl
        refl
        []
        (ClamavPolicy.decision libraries source
          (clamav_at "/run/clamd.sock")
          page_request
          page_response
          refl
          refl))
      (Clamav.processing libraries source (clamav_at "/run/clamd.sock") false [] page)
clamav_processing-Implements_example =
    clamav_processing-Implements libraries source (clamav_at "/run/clamd.sock") page_request
      page_response refl refl [] refl (λ h. cc)

hashlookup_processing-Implements_example :
    Carries libraries page_response
      (HashlookupPolicy.table libraries source hash_service page_request page_response refl refl []
        (HashlookupPolicy.decision libraries source hash_service page_request page_response refl
          refl))
      (Hashlookup.processing libraries source hash_service false [] page)
hashlookup_processing-Implements_example =
    hashlookup_processing-Implements libraries source hash_service page_request page_response refl
      refl [] refl (λ h. cc)

echo_processing-Implements_example :
    Carries libraries page_response
      (EchoPolicy.table libraries source echo_service page_request page_response refl refl []
        (EchoPolicy.decision libraries source echo_service page_request page_response refl refl))
      (Echo.processing libraries source echo_service false [] page)
echo_processing-Implements_example =
    echo_processing-Implements libraries source echo_service page_request page_response refl refl []
      refl

host_set : read_values_string source "app.web_server_host" ≡ done "text"
unfolding read_values_string
host_set = refl

endpoint_set : read_values_string source "app.web_server_endpoint" ≡ done "text"
unfolding read_values_string
endpoint_set = refl

page_present : Present "RESPMOD" page
page_present = record {
  with_request = (page_request, refl, λ _. refl);
  with_response = λ _. (page_response, refl);
}

processing-returns_example :
    (reply : Reply) × (s' : HttpMsg) × (processing libraries source
        (clamav (clamav_at "/run/clamd.sock"))
        false
        []
        page
      ≡ done (reply, s'))
    × IsFinal reply.status
    × Present "RESPMOD" s'
processing-returns_example =
    processing-returns libraries source refl ("text", host_set) ("text", endpoint_set)
      (λ _. ([], refl)) (clamav (clamav_at "/run/clamd.sock")) [] page (λ file h. cc) page_present

waiting : Waiting "RESPMOD" (called false)
waiting = record {
  method_name = refl;
  req_method = refl;
  with_request = λ _. (page_request, refl, refl);
  with_original = λ h. absurd (cc);
  with_response = λ _. (page_response, refl);
}

abbrev filter_service : Echo
filter_service = record filter_config {
  service_name = "filter";
  method_name = "RESPMOD";
  x_icap_metadata = "m";
}

got : get_service loaded "echo" "filter" "RESPMOD" "m" ≡ done (some (echo filter_service))
unfolding get_service new_echo_service
got = refl

resp_and_req_mods-returns_example :
    (s' : Handler) × (resp_and_req_mods libraries source loaded 2 whole true (called false)
      ≡ done (tt, s'))
    × ((called false).is_shadow_service_enabled ≡ false → Answered (called false) s')
resp_and_req_mods-returns_example =
    resp_and_req_mods-returns libraries source loaded refl ("text", host_set) ("text", endpoint_set)
      (λ _. ([], refl)) "RESPMOD" (echo filter_service) whole true (called false) tt waiting got
