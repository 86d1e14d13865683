-- ===== src/Api/Serving.antt =====
-- api/icap-request.go and api/icap.go: the request from its arrival to its answer.
pub mod Methods
pub mod Options
pub mod Order
pub mod OneHead
pub mod Preview
use icapegclh.Prelude.{
  ℕ, String, ◌<>◌, Bool, true, false, not, ◌&&◌, Option, none, some, List, [], ◌∷◌, nat_eq, ◌==◌,
  length, if◌then◌else◌,
}
use icapegclh.Prelude.Int.{is_negative}
use icapegclh.Prelude.Outcome
use icapegclh.Prelude.Outcome.{Outcome, done, panicked}
use icapegclh.Consts.{
  icap_mode_req, icap_mode_resp, icap_mode_options, content_length, any_ext, ok_status_code,
}
use icapegclh.Text.{itoa}
use icapegclh.Header.{Header, set, get}
use icapegclh.FormPart.{Bytes}
use icapegclh.Http.{nil_message, Request, Response, Url}
use icapegclh.External.{External}
use icapegclh.Settings.{Source, atoi}
use icapegclh.Config.{AppConfig, ServiceIcapInfo}
use icapegclh.Service.Dispatch.{Configs, init_service_config}
use icapegclh.Api.Handler.{
  Handler, H, Original, own, same, IcapRequest, head, ◌>>=◌, ◌>>◌, pure, lift, self, modify,
  update_req, write, the_request, the_response, the_instance,
}
use icapegclh.Api.Initialization.{
  Initialized, proceed, service_missing, method_not_allowed, shadow, request_initialization,
}
use icapegclh.Api.Responding.{resp_and_req_mods}

-- The methods of the service; `allMethods[0]` of an empty slice panics.
unfoldable pub get_enabled_methods : ServiceIcapInfo → Outcome String
get_enabled_methods info =
    if info.resp_mode
    then if info.req_mode then done ("RESPMOD" <> (", " <> "REQMOD")) else done "RESPMOD"
    else if info.req_mode
    then done "REQMOD"
    else panicked

-- The loop of `NewICAPRequest`, in an order of the map's entries.
unfoldable pub load_configs : Source → List (String × ServiceIcapInfo) → Configs → Outcome Configs
load_configs src [] c = done c
load_configs src ((service_name, info) ∷ rest) c =
    Outcome.◌>>=◌ (init_service_config src info.vendor service_name c) (load_configs src rest)

-- The handler at its start, with the random text that `RequestInitialization` draws for it.
unfoldable pub new_icap_request :
    AppConfig → IcapRequest → Header → (x_icap_metadata : String) → Handler
new_icap_request app req h x_icap_metadata = record {
  w = [];
  req = req;
  h = h;
  is_204_allowed = false;
  is_shadow_service_enabled = false;
  app_cfg = app;
  service_name = "";
  method_name = "";
  vendor = "";
  x_icap_metadata = x_icap_metadata;
}

module _ (ext : External) where
  unfoldable pub options_mode : H (Unit {0})
  options_mode = do
    info ← the_instance
    methods ← lift (get_enabled_methods info)
    modify (λ s. record s {
      h = set ext.canonical "Allow" "204" (set ext.canonical "Methods" methods s.h);
    })
    modify (λ s.
        if info.preview_enabled && not (is_negative (atoi info.preview_bytes))
        then record s { h = set ext.canonical "Preview" info.preview_bytes s.h }
        else s)
    modify (λ s. record s { h = set ext.canonical "Transfer-Preview" any_ext s.h })
    write (head ok_status_code nil_message false)

  -- `Header.Get("Preview") != "" && EndIndicator != "0; ieof" && EndIndicator != ""`
  unfoldable pub is_preview : IcapRequest → Bool
  is_preview req =
      not (get ext.canonical req.header "Preview" == "")
      && not (req.end_indicator == "0; ieof")
      && not (req.end_indicator == "")

  -- RESPMOD: the length of the body is set. REQMOD: the request is copied. `new_request` is whether
  -- `http.NewRequest` accepts the method and the URL.
  unfoldable pub copy_messages : (new_request : String → Url → Bool) → H ℕ
  copy_messages new_request = do
    s ← self
    if s.method_name == icap_mode_resp
        then (do
          r ← the_response
          let r' : Response = record r {
            header = set ext.canonical content_length (itoa (length r.body)) r.header;
          }
          update_req (λ q. record q { response = some r' })
          pure (length r.body))
        else if s.req.method == icap_mode_req
        then (do
          r ← the_request
          let r' : Request = record r {
            header = set ext.canonical content_length (itoa (length r.body)) r.header;
          }
          let org = if new_request r.method r.url then own r.method r.url r.body else same
          update_req (λ q. record q { request = some r'; org_request = some org })
          pure 0)
        else pure 0

  -- `partial`, as it is set before a service is called.
  unfoldable pub is_partial : (new_request : String → Url → Bool) → H Bool
  is_partial new_request = do
    s ← self
    if s.method_name == icap_mode_options then pure false else (do
      file_len ← copy_messages new_request
      t ← self
      let first = if nat_eq file_len 0 then false else is_preview t.req
      pure (if is_preview t.req then true else first))

  unfoldable pub host_header : H (Unit {0})
  host_header = do
    s ← self
    if s.method_name == icap_mode_req
        then (do
          r ← the_request
          update_req (λ q. record q {
            request = some (record r { header = set ext.canonical "Host" r.host r.header });
          }))
        else pure tt

  -- `RequestProcessing`, with two calls of `RespAndReqMods`.
  unfoldable pub request_processing :
      Source → Configs → (new_request : String → Url → Bool) → (rest : Bytes) → H (Unit {0})
  request_processing src configs new_request rest = do
    partial ← is_partial new_request
    host_header
    s ← self
    if s.method_name == icap_mode_options
        then options_mode
        else resp_and_req_mods ext src configs 2 rest partial

  -- What `ToICAPEGServe` does with the result of `RequestInitialization`. In shadow mode the
  -- goroutine's processing comes after the answer.
  unfoldable pub process_as :
      Source
      → Configs
      → (new_request : String → Url → Bool) → (rest : Bytes) → Initialized
      → H Initialized
  process_as src configs new_request rest proceed = do
    request_processing src configs new_request rest
    pure proceed
  process_as src configs new_request rest shadow = do
    request_processing src configs new_request rest
    pure shadow
  process_as src configs new_request rest service_missing = pure service_missing
  process_as src configs new_request rest method_not_allowed = pure method_not_allowed

  -- `ToICAPEGServe` after `NewICAPRequest`.
  unfoldable pub to_icapeg_serve :
      Source
      → Configs
      → (now : ℕ) → (left : Bytes → Bytes) → (new_request : String → Url → Bool) → (rest : Bytes)
      → H Initialized
  to_icapeg_serve src configs now left new_request rest = do
    result ← request_initialization ext configs now left
    process_as src configs new_request rest result
