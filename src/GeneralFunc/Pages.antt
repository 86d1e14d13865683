-- ===== src/GeneralFunc/Pages.antt =====
-- general-functions.go: the pages and messages that replace a refused file.
use icapegclh.Prelude.{
  ℕ, String, ◌<>◌, Bool, Option, none, some, [], ◌∷◌, ◌==◌, length, if◌then◌else◌,
}
use icapegclh.Prelude.Int.{ℤ, pos}
use icapegclh.Prelude.Outcome.{Outcome, done, panicked}
use icapegclh.Consts.{
  icap_mode_resp, no_modification_status_code, ok_status_code, internal_server_err_status_code,
  content_type, content_length, html_content_type, block_page_path,
  err_page_reason_max_file_exceeded,
}
use icapegclh.Text.{itoa, itoa_int}
use icapegclh.FormPart.{Bytes}
use icapegclh.Header.{set, del_keys}
use icapegclh.Http.{Message, nil_message, request_message, response_message, Request, Response}
use icapegclh.External.{External, ErrorPage}
use icapegclh.Settings.{Source, read_values_string}
use icapegclh.Exchange.{
  M, ◌>>=◌, ◌>>◌, pure, maybe, lift, the_request, the_built_request, put_request, put_response,
}

abbrev pub http_status_forbidden : ℤ
http_status_forbidden = pos 403

module _ (ext : External) where
  unfoldable pub err_page_resp : ℤ → ℕ → Response
  err_page_resp status page_content_length = record {
    status_code = status;
    status = itoa_int status <> (" " <> ext.status_text status);
    header =
        (content_type, html_content_type ∷ [])
        ∷ (content_length, itoa page_content_length ∷ [])
        ∷ [];
    body = [];
    origin = none;
  }

  -- The template at `path`, else the default one; a nil template panics.
  unfoldable pub gen_html_page :
      (path reason service_name identifier_id req_url file_size x_icap_metadata : String)
      → Outcome Bytes
  gen_html_page path reason service_name identifier_id req_url file_size x_icap_metadata =
      let page : ErrorPage = record {
        reason = reason;
        service_name = service_name;
        requested_url = req_url;
        identifier_id = identifier_id;
        exception_page = "";
        size = file_size;
        x_icap_metadata = x_icap_metadata;
      } in
      if ext.template_parses path
      then done (ext.execute_template path page)
      else if ext.template_parses block_page_path
      then done (ext.execute_template block_page_path page)
      else panicked

  -- The request that asks the block page's web server instead; `none` is the error of the JSON
  -- encoder. The shared request is rewritten too.
  unfoldable pub req_mod_err_page :
      Source → (reason service_name identifier_id file_size : String) → M (Option (Bytes × Request))
  req_mod_err_page src reason service_name identifier_id file_size = do
    host ← lift (read_values_string src "app.web_server_host")
    endpoint ← lift (read_values_string src "app.web_server_endpoint")
    r ← the_built_request
    let r' = record r {
      url = record { scheme = ""; opaque_part = host <> endpoint; host = host; path = "" };
      header = set ext.canonical "Host" host (del_keys ext.canonical r.header r.header);
      method = "GET";
      request_uri = host <> endpoint;
      body = [];
    }
    put_request r'
    let page : ErrorPage = record {
      reason = reason;
      service_name = service_name;
      requested_url = r.request_uri;
      identifier_id = identifier_id;
      exception_page = "";
      size = file_size;
      x_icap_metadata = "";
    }
    pure (elim (ext.marshal_page page) [ none ↦ none | some body ↦ some (body, r') ])

  -- A status, the bytes of the file or of the page (`none` is a nil buffer), and a message.
  unfoldable pub if_max_file_size_exc :
      Source
      → (x_icap_metadata : String) (return_orig_if_max_size_exc : Bool)
        (service_name method_name : String) (file : Bytes) (page_path file_size : String)
      → M (ℕ × Option Bytes × Message)
  if_max_file_size_exc src x_icap_metadata return_orig service_name method_name file page_path
        file_size =
      if return_orig
      then pure (no_modification_status_code, some file, nil_message)
      else if method_name == icap_mode_resp
      then (do
        req ← the_request
        page ← lift (
            gen_html_page page_path err_page_reason_max_file_exceeded service_name "-"
              req.request_uri file_size x_icap_metadata)
        let resp = err_page_resp http_status_forbidden (length page)
        put_response resp
        pure (ok_status_code, some page, response_message resp))
      else (do
        made ← req_mod_err_page src err_page_reason_max_file_exceeded service_name "-" file_size
        maybe made (pure (internal_server_err_status_code, none, nil_message))
            (λ (page, req). pure (ok_status_code, some page, request_message req)))
