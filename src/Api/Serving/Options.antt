-- ===== src/Api/Serving/Options.antt =====
-- The answer to OPTIONS.
use icapegclh.Prelude.{
  String, Bool, true, false, not, ◌&&◌, ◌≡◌, refl, ap, ◌∙◌, Bool-cases, inl, inr, some, [], ◌∷◌,
  ◌++◌, ◌==◌, arith, if◌then◌else◌,
}
use icapegclh.Prelude.Int.{is_negative}
use icapegclh.Prelude.Outcome.{done}
use icapegclh.Header.{Header, lookup, set, lookup-set}
use icapegclh.Http.{nil_message}
use icapegclh.External.{External}
use icapegclh.Settings.{atoi}
use icapegclh.Config.{ServiceIcapInfo}
use icapegclh.Api.Handler.{Handler, head}
use icapegclh.Api.Serving.{get_enabled_methods, options_mode}

-- Whether a preview is announced.
abbrev pub has_preview : ServiceIcapInfo → Bool
has_preview info = info.preview_enabled && not (is_negative (atoi info.preview_bytes))

-- The answer that describes a service.
pub record Described (info : ServiceIcapInfo) (methods : String) (s s' : Handler) : Type 0 where
  pub written : s'.w ≡ s.w ++ head 200 nil_message false ∷ []
  pub methods_header : lookup "Methods" s'.h ≡ some (methods ∷ [])
  pub allow : lookup "Allow" s'.h ≡ some ("204" ∷ [])
  pub preview : has_preview info ≡ true → lookup "Preview" s'.h ≡ some (info.preview_bytes ∷ [])
  pub no_preview : has_preview info ≡ false → lookup "Preview" s'.h ≡ lookup "Preview" s.h
  pub transfer : lookup "Transfer-Preview" s'.h ≡ some ("*" ∷ [])

module _ (ext : External) (c_methods : ext.canonical "Methods" ≡ "Methods")
    (c_allow : ext.canonical "Allow" ≡ "Allow") (c_preview : ext.canonical "Preview" ≡ "Preview")
    (c_transfer : ext.canonical "Transfer-Preview" ≡ "Transfer-Preview") where
  abbrev with_preview : ServiceIcapInfo → Header → Header
  with_preview info h =
      if has_preview info then set ext.canonical "Preview" info.preview_bytes h else h

  abbrev described : ServiceIcapInfo → String → Header → Header
  described info methods h =
      set ext.canonical "Transfer-Preview" "*" (
        with_preview info (set ext.canonical "Allow" "204" (set ext.canonical "Methods" methods h)))

  abbrev answered : ServiceIcapInfo → String → Handler → Handler
  answered info methods s = record s {
    h = described info methods s.h;
    w = s.w ++ head 200 nil_message false ∷ [];
  }

  with_preview-off :
      (info : ServiceIcapInfo) (h : Header)
      → has_preview info ≡ false
      → lookup "Preview" (with_preview info h) ≡ lookup "Preview" h
  with_preview-off info h off =
      ap (λ b. lookup "Preview" (if b then set ext.canonical "Preview" info.preview_bytes h else h))
        off

  with_preview-on :
      (info : ServiceIcapInfo) (h : Header)
      → has_preview info ≡ true
      → lookup "Preview" (with_preview info h) ≡ some (info.preview_bytes ∷ [])
  with_preview-on info h on =
      ap (λ b. lookup "Preview" (if b then set ext.canonical "Preview" info.preview_bytes h else h))
        on
      ∙ lookup-set ext.canonical "Preview" "Preview" info.preview_bytes h c_preview

  with_preview-other :
      (info : ServiceIcapInfo) (key : String) (h : Header)
      → "Preview" == key ≡ false
      → lookup key (with_preview info h) ≡ lookup key h
  with_preview-other info key h other = elim (Bool-cases (has_preview info)) [
    | inl on ↦
        ap (λ b. lookup key (if b then set ext.canonical "Preview" info.preview_bytes h else h)) on
        ∙ lookup-set ext.canonical "Preview" key info.preview_bytes h c_preview
        ∙ ap (λ b. if b then some (info.preview_bytes ∷ []) else lookup key h) other
    | inr off ↦
        ap (λ b. lookup key (if b then set ext.canonical "Preview" info.preview_bytes h else h)) off
  ]

  options_mode-answered :
      (s : Handler) (info : ServiceIcapInfo) (methods : String)
      → lookup s.service_name s.app_cfg.services_instances ≡ some info
      → get_enabled_methods info ≡ done methods
      → options_mode ext s ≡ done (tt, answered info methods s)
  unfolding options_mode
  options_mode-answered s info methods found built = ground (arith, found, built)

  -- Where `CanonicalMIMEHeaderKey` leaves the four names as they are, the handler's service has an
  -- instance, and the list of its methods can be built, OPTIONS is answered with 200 and with the headers
  -- Methods, Allow: 204, Transfer-Preview: * and, where a preview is enabled and its size is not negative,
  -- Preview; otherwise Preview is as it was.
  pub options_mode-Described :
      (s : Handler) (info : ServiceIcapInfo) (methods : String)
      → lookup s.service_name s.app_cfg.services_instances ≡ some info
      → get_enabled_methods info ≡ done methods
      → (s' : Handler) × (options_mode ext s ≡ done (tt, s')) × Described info methods s s'
  options_mode-Described s info methods found built = (
    answered info methods s,
    options_mode-answered s info methods found built,
    record {
      written = refl;
      methods_header =
          lookup-set ext.canonical "Transfer-Preview" "Methods" "*" _ c_transfer
          ∙ with_preview-other info "Methods" _ refl
          ∙ lookup-set ext.canonical "Allow" "Methods" "204" _ c_allow
          ∙ lookup-set ext.canonical "Methods" "Methods" methods s.h c_methods;
      allow =
          lookup-set ext.canonical "Transfer-Preview" "Allow" "*" _ c_transfer
          ∙ with_preview-other info "Allow" _ refl
          ∙ lookup-set ext.canonical "Allow" "Allow" "204" _ c_allow;
      preview = λ on.
          lookup-set ext.canonical "Transfer-Preview" "Preview" "*" _ c_transfer
          ∙ with_preview-on info _ on;
      no_preview = λ off.
          lookup-set ext.canonical "Transfer-Preview" "Preview" "*" _ c_transfer
          ∙ with_preview-off info _ off
          ∙ lookup-set ext.canonical "Allow" "Preview" "204" _ c_allow
          ∙ lookup-set ext.canonical "Methods" "Preview" methods s.h c_methods;
      transfer = lookup-set ext.canonical "Transfer-Preview" "Transfer-Preview" "*" _ c_transfer;
    },
  )
