-- ===== src/Api/Initialization.antt =====
-- api/icap-request.go: what is decided of a request before a service sees it.
pub mod Outcomes
use icapegclh.Prelude.{
  ℕ, String, ◌<>◌, Bool, true, false, not, ◌&&◌, ◌||◌, Option, none, some, List, [], ◌∷◌, ◌==◌,
  if◌then◌else◌,
}
use icapegclh.Prelude.Outcome.{Outcome, done, panicked}
use icapegclh.Consts.{
  icap_mode_req, icap_mode_resp, icap_mode_options, no_modification_status_code, ok_status_code,
  method_not_allowed_for_service_code, icap_service_not_found_code,
}
use icapegclh.Text.{slice_from, contains}
use icapegclh.Header.{Header, lookup, insert, get}
use icapegclh.FormPart.{Bytes}
use icapegclh.Http.{nil_message, request_message, response_message, Request, Response}
use icapegclh.External.{External}
use icapegclh.GeneralFunc.Extensions.{in_string_slice}
use icapegclh.Service.Dispatch.{Configs, Service, get_service, istag_value}
use icapegclh.Config.{ServiceIcapInfo}
use icapegclh.Api.Handler.{
  Handler, H, head, chunk, ◌>>=◌, ◌>>◌, pure, abort, lift, self, modify, update_req, write,
  the_request, the_response, the_instance,
}

-- The results of `RequestInitialization`: no error, or one of its three errors.
pub data Initialized : Type 0 where
  proceed service_missing method_not_allowed shadow : Initialized

unfoldable pub is_service_exists : Handler → Bool
is_service_exists s = in_string_slice s.service_name s.app_cfg.services

unfoldable pub is_method_allowed : H Bool
is_method_allowed = do
  s ← self
  if s.method_name == icap_mode_resp
      then (do info ← the_instance; pure info.resp_mode)
      else if s.method_name == icap_mode_req
      then (do info ← the_instance; pure info.req_mode)
      else pure (s.method_name == icap_mode_options)

abbrev is_some : Option (List String) → Bool
is_some none = false
is_some (some _) = true

-- `i.req.URL.Path[1:]`
unfoldable pub name_in_url : H String
name_in_url = do
  s ← self
  elim (slice_from 1 s.req.url_path) [ none ↦ abort | some name ↦ pure name ]

module _ (ext : External) where
  -- Whether the header "Allow" is there and is, or contains, 204.
  unfoldable pub is_204_allowed : Header → Bool
  is_204_allowed header =
      let exist = is_some (lookup "Allow" header) in
      if exist && get ext.canonical header "Allow" == "204"
      then true
      else exist && contains (get ext.canonical header "Allow") "204"

  unfoldable pub adding_istag_service_headers : String → H (Unit {0})
  adding_istag_service_headers istag = do
    info ← the_instance
    modify (λ s. record s {
      h = insert "Service" (info.service_caption ∷ []) (insert "ISTag" (istag ∷ []) s.h);
    })

  -- The debugging header, where it is configured.
  abbrev shadow_header : String → Handler → Handler
  shadow_header value s =
      if s.app_cfg.debugging_headers
      then record s { h = insert "X-ICAPeg-Shadow-Service" (value ∷ []) s.h }
      else s

  -- `shadowService`. `left` is what `WriteHeader` leaves of a body that it was given.
  unfoldable pub shadow_service : (left : Bytes → Bytes) → H (Unit {0})
  shadow_service left = do
    modify (shadow_header "true")
    s ← self
    if s.is_204_allowed
        then write (head no_modification_status_code nil_message false)
        else if s.req.method == icap_mode_req
        then (do
          r ← the_request
          write (head ok_status_code (request_message r) true)
          write (chunk (left r.body))
          update_req (λ q. record q { request = some (record r { body = left r.body }) }))
        else if s.req.method == icap_mode_resp
        then (do
          r ← the_response
          write (head ok_status_code (response_message r) true)
          write (chunk (left r.body))
          update_req (λ q. record q { response = some (record r { body = left r.body }) }))
        else pure tt

  -- The end: whether 204 is allowed, and shadow mode, but for OPTIONS.
  unfoldable pub choose_mode : (left : Bytes → Bytes) → ServiceIcapInfo → H Initialized
  choose_mode left info = do
    modify (λ s. record s {
      is_204_allowed = is_204_allowed s.req.header;
      is_shadow_service_enabled = info.shadow_service;
    })
    s ← self
    if info.shadow_service && not (s.method_name == icap_mode_options)
        then (do shadow_service left; pure shadow)
        else (do modify (shadow_header "false"); pure proceed)

  -- What follows `GetService`: a nil service panics, else the headers that every service adds.
  unfoldable pub with_service :
      (now : ℕ) → (left : Bytes → Bytes) → ServiceIcapInfo → Option Service → H Initialized
  with_service now left info none = abort
  with_service now left info (some _) = do
    adding_istag_service_headers (istag_value now)
    choose_mode left info

  -- The service of the instance's vendor.
  unfoldable pub enter_service : Configs → (now : ℕ) → (left : Bytes → Bytes) → H Initialized
  enter_service configs now left = do
    info ← the_instance
    modify (λ s. record s { vendor = info.vendor })
    s ← self
    required ← lift (get_service configs s.vendor s.service_name s.method_name s.x_icap_metadata)
    with_service now left info required

  -- The test of the method, which "options" in lower case would skip.
  unfoldable pub check_method : Configs → ℕ → (Bytes → Bytes) → H Initialized
  check_method configs now left = do
    modify (λ s. record s { method_name = s.req.method })
    s ← self
    allowed ← if s.method_name == "options" then pure true else is_method_allowed
    if allowed then enter_service configs now left else (do
      write (head method_not_allowed_for_service_code nil_message false)
      pure method_not_allowed)

  -- `RequestInitialization`
  unfoldable pub request_initialization : Configs → ℕ → (Bytes → Bytes) → H Initialized
  request_initialization configs now left = do
    service_name ← name_in_url
    modify (λ s. record s { service_name = service_name })
    s' ← self
    if is_service_exists s'
        then check_method configs now left
        else (do write (head icap_service_not_found_code nil_message false); pure service_missing)
