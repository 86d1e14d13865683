-- ===== src/GeneralFunc/Returning/Pages.antt =====
-- The pages and the check of the extension return: they need the default block page, the settings of its
-- web server, a page that can be encoded and, in REQMOD, the content type of the request.
use icapegclh.Prelude.{
  ℕ, String, Bool, true, false, ◌==◌, ◌≡◌, refl, Option, some, List, Bool-cases, inl, inr,
}
use icapegclh.Prelude.Outcome.{done}
use icapegclh.Consts.{block_page_path, icap_mode_resp, no_modification_status_code}
use icapegclh.FormPart.{Bytes}
use icapegclh.Http.{Request, Message}
use icapegclh.External.{External, ErrorPage}
use icapegclh.Settings.{Source, read_values_string}
use icapegclh.Extension.{Extension}
use icapegclh.Exchange.{lift}
use icapegclh.Exchange.Returns.{
  Returns, Anything, Returns-pure, Returns-lift, Returns-bind, Returns-bind_after, Returns-then,
  Returns-either, Returns-if, Returns-the_built_request, Returns-made, Returns-the_request,
  Returns-put_request, Returns-put_response, returns_rules,
}
use icapegclh.GeneralFunc.Pages.{gen_html_page, req_mod_err_page, if_max_file_size_exc}
use icapegclh.GeneralFunc.Extensions.{
  Decision, process, reject, bypass, decide, FileCheck, reject_file, bypass_file, apply_decision,
  check_the_extension,
}
use icapegclh.GeneralFunc.Returning.{
  Typed, preparing-Returns, if_icap_status_is_204-Returns, set_message_body-Returns,
}

abbrev IsMade : Option (Bytes × Request) → Type 0
IsMade o = (a : Bytes × Request) × (o ≡ some a)

-- The page is there.
abbrev pub PagePresent : ℕ × Option Bytes × Message → Type 0
PagePresent (status, page, m) = (b : Bytes) × (page ≡ some b)

-- A page can be rendered where the default template is there.
pub gen_html_page-done :
    (ext : External)
    (path reason service_name identifier_id req_url file_size x_icap_metadata : String)
    → ext.template_parses block_page_path ≡ true
    → (page : Bytes) × (gen_html_page ext path reason service_name identifier_id req_url file_size
          x_icap_metadata
        ≡ done page)
unfolding gen_html_page
gen_html_page-done ext path reason service_name identifier_id req_url file_size x_icap_metadata
      template =
    let page : ErrorPage = record {
      reason = reason;
      service_name = service_name;
      requested_url = req_url;
      identifier_id = identifier_id;
      exception_page = "";
      size = file_size;
      x_icap_metadata = x_icap_metadata;
    } in
    elim (Bool-cases (ext.template_parses path)) [
      | inl own ↦ (ext.execute_template path page, rw own refl)
      | inr other ↦ (ext.execute_template block_page_path page, rw (other, template) refl)
    ]

module _ (ext : External) (src : Source) (method_name : String) where
  module _ (template : ext.template_parses block_page_path ≡ true) where
    pub gen_html_page-Returns :
        (path reason service_name identifier_id req_url file_size x_icap_metadata : String)
        → Returns method_name Anything (
            lift (
              gen_html_page ext path reason service_name identifier_id req_url file_size
                x_icap_metadata))
    gen_html_page-Returns path reason service_name identifier_id req_url file_size x_icap_metadata =
        let (page, e) =
          gen_html_page-done ext path reason service_name identifier_id req_url file_size
            x_icap_metadata template in
        Returns-lift method_name _ page e tt

    module _ (host : (h : String) × (read_values_string src "app.web_server_host" ≡ done h))
        (endpoint : (h : String) × (read_values_string src "app.web_server_endpoint" ≡ done h))
        (encodes : (p : ErrorPage) → (b : Bytes) × (ext.marshal_page p ≡ some b)) where
      host-Returns :
          Returns method_name Anything (lift (read_values_string src "app.web_server_host"))
      host-Returns = Returns-lift method_name _ host.0 host.1 tt

      endpoint-Returns :
          Returns method_name Anything (lift (read_values_string src "app.web_server_endpoint"))
      endpoint-Returns = Returns-lift method_name _ endpoint.0 endpoint.1 tt

      pub req_mod_err_page-Returns :
          (reason service_name identifier_id file_size : String)
          → method_name == icap_mode_resp ≡ false
          → Returns method_name IsMade
              (req_mod_err_page ext src reason service_name identifier_id file_size)
      unfolding req_mod_err_page
      req_mod_err_page-Returns reason service_name identifier_id file_size other =
          Returns-bind method_name _ _ host-Returns (λ h.
            Returns-bind method_name _ _ endpoint-Returns (λ e.
              Returns-bind_after method_name _ _ (Returns-the_built_request method_name other)
                (λ r built.
                  Returns-then method_name _ _ (Returns-put_request method_name _ built)
                    (Returns-pure method_name _ (rw (encodes _).1 (_, refl))))))

      pub if_max_file_size_exc-Returns :
          (metadata : String) (orig : Bool) (name : String) (file : Bytes) (page size : String)
          → Returns method_name PagePresent
              (if_max_file_size_exc ext src metadata orig name method_name file page size)
      unfolding if_max_file_size_exc
      if_max_file_size_exc-Returns metadata orig name file page size =
          Returns-either method_name _ _ _ (Returns-pure method_name _ (_, refl)) (
            Returns-if method_name _ _ _
              (λ _. Returns-bind method_name _ _ (Returns-the_request method_name) (λ r.
                Returns-bind method_name _ _ (gen_html_page-Returns _ _ _ _ _ _ _) (λ b.
                  Returns-then method_name _ _ (Returns-put_response method_name _)
                    (Returns-pure method_name _ (_, refl)))))
              (λ other.
                Returns-bind_after method_name _ _ (req_mod_err_page-Returns _ _ _ _ other)
                  (λ made h.
                    Returns-made method_name _ _ _ h (λ r. Returns-pure method_name _ (_, refl)))))

module _ (ext : External) (src : Source) (template : ext.template_parses block_page_path ≡ true)
    (host : (h : String) × (read_values_string src "app.web_server_host" ≡ done h))
    (endpoint : (h : String) × (read_values_string src "app.web_server_endpoint" ≡ done h))
    (encodes : (p : ErrorPage) → (b : Bytes) × (ext.marshal_page p ≡ some b)) where
  reject_file-Returns : (c : FileCheck) → Returns c.method_name Anything (reject_file ext src c)
  unfolding reject_file
  reject_file-Returns c =
      let m = c.method_name in
      Returns-either m _ _ _ (Returns-pure m _ tt) (
        Returns-if m _ _ _
          (λ _.
            Returns-bind m _ _ (gen_html_page-Returns ext src m template _ _ _ _ _ _ _)
              (λ page. Returns-then m _ _ (Returns-put_response m _) (Returns-pure m _ tt)))
          (λ other.
            Returns-bind_after m _ _
              (req_mod_err_page-Returns ext src m template host endpoint encodes _ _ _ _ other)
              (λ made h. Returns-made m _ _ _ h (λ r.
                Returns-bind m _ _ (preparing-Returns ext src m r.0 _ (λ _. (_, refl)))
                  (λ body. Returns-pure m _ tt)))))

  bypass_file-Returns :
      (c : FileCheck)
      → Typed c.method_name c.req_content_type
      → Returns c.method_name Anything (bypass_file ext src c)
  unfolding bypass_file
  bypass_file-Returns c typed =
      let prepared =
        if_icap_status_is_204-Returns ext src c.method_name no_modification_status_code c.file
          c.is_gzip c.req_content_type in
      let made = set_message_body-Returns ext src c.method_name in
      search (returns_rules, prepared, made, typed) depth 8

  pub check_the_extension-Returns :
      (e : String) (arr : List Extension) (ps rs bs : List String) (c : FileCheck)
      → Typed c.method_name c.req_content_type
      → Returns c.method_name Anything (check_the_extension ext src e arr ps rs bs c)
  unfolding check_the_extension
  check_the_extension-Returns e arr ps rs bs c typed = go (decide e ps rs bs arr)
    where
      go : (d : Decision) → Returns c.method_name Anything (apply_decision ext src d c)
      go process = unfold apply_decision in Returns-pure c.method_name _ tt
      go reject = unfold apply_decision in reject_file-Returns c
      go bypass = unfold apply_decision in bypass_file-Returns c typed
