-- ===== src/HtmlMessage/BlockedRequest.antt =====
-- The page of a request that is refused in REQMOD: the request goes to the endpoint instead.
use icapegclh.Prelude.{String, ◌≡◌, ◌<>◌, []}
use icapegclh.Prelude.Outcome.{done}
use icapegclh.Header.{set, del_keys}
use icapegclh.Http.{Request}
use icapegclh.External.{External, ErrorPage}
use icapegclh.Settings.{Source, read_values_string}

module _ (ext : External) (src : Source)
    (reason service_name identifier_id file_size : String) where
  -- The data of the page that is asked for.
  abbrev asked_page : Request → ErrorPage
  asked_page r = record {
    reason = reason;
    service_name = service_name;
    requested_url = r.request_uri;
    identifier_id = identifier_id;
    exception_page = "";
    size = file_size;
    x_icap_metadata = "";
  }

  module _ (host endpoint : String)
      (has_host : read_values_string src "app.web_server_host" ≡ done host)
      (has_endpoint : read_values_string src "app.web_server_endpoint" ≡ done endpoint) where
    -- The request that asks the web server.
    abbrev redirected : Request → Request
    redirected r = record r {
      url = record { scheme = ""; opaque_part = host <> endpoint; host = host; path = "" };
      header = set ext.canonical "Host" host (del_keys ext.canonical r.header r.header);
      method = "GET";
      request_uri = host <> endpoint;
      body = [];
    }
