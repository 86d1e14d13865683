-- ===== src/Tests.antt =====
-- Concrete libraries, configurations and messages, on which the theorems are applied.
mod Logs
mod Startup
mod Services
mod Requests
mod Policies
mod Values
mod Answers
mod Bodies
use icapegclh.Prelude.{
  ℕ, String, Bool, true, false, Option, none, some, List, [], ◌∷◌, ◌==◌, map, if◌then◌else◌,
}
use icapegclh.Prelude.Int.{pos}
use icapegclh.FormPart.{Bytes, FormPart, FormWrite, write_field, write_file}
use icapegclh.Header.{Header}
use icapegclh.Http.{Url, Request, Response, HttpMsg}
use icapegclh.External.{
  External, ErrorPage, Json, boolean, answered, ScanStream, scan_closed, scan_open,
}
use icapegclh.Settings.{Source}

abbrev printed : Option Json → Bytes
printed (some (boolean true)) = b't' ∷ []
printed _ = []

abbrev two_parts : List FormPart
two_parts =
    record { form_name = "note"; file_name = ""; content = b'n' ∷ [] }
    ∷ record { form_name = "doc"; file_name = "a.pdf"; content = b'p' ∷ b'd' ∷ [] }
    ∷ []

abbrev written_parts : List FormWrite → Bytes
written_parts [] = []
written_parts (write_field _ _ ∷ ws) = 0 ∷ written_parts ws
written_parts (write_file _ _ _ ∷ ws) = 1 ∷ written_parts ws

abbrev daemon : String → Bytes → ScanStream
daemon path file =
    if path == "/run/slow.sock"
    then scan_open
    else scan_closed (record { status = "FOUND"; description = "Eicar" } ∷ [])

abbrev pub sent_page : ErrorPage
sent_page = record {
  reason = "fileIsNotSafe";
  service_name = "clamav";
  requested_url = "/a.pdf";
  identifier_id = "id";
  exception_page = "";
  size = "2";
  x_icap_metadata = "";
}

-- Libraries that answer at once: every lookup knows the file, the daemon finds it.
abbrev pub libraries : External
libraries = record {
  canonical = λ k. k;
  status_text = λ _. "Forbidden";
  gzip = λ b. some b;
  gzip_opens = λ _. false;
  gunzip = λ b. some b;
  base64_encode = λ b. b;
  base64_decode = λ b. b;
  json_decode = λ _. [];
  json_encode = λ _. [];
  sprint = printed;
  media_boundary = λ _. "b";
  read_parts = λ _ _. two_parts;
  write_form = λ _ ws. written_parts ws;
  match_filetype = λ _. none;
  template_parses = λ _. true;
  execute_template = λ _ _. b'p' ∷ [];
  marshal_page = λ _. some [];
  read_page = λ _. sent_page;
  sha256_hex = λ _. "e3b0";
  scan_stream = daemon;
  look_up = λ _ _. answered (("KnownMalicious", boolean true) ∷ []);
}

abbrev slice_of : String → List String
slice_of k =
    if k == "app.services"
    then "filter" ∷ []
    else if k == "filter.bypass_extensions"
    then "*" ∷ []
    else if k == "filter.process_extensions"
    then "pdf" ∷ []
    else "docx" ∷ []

-- A configuration file with the service "filter" of the vendor "echo".
abbrev pub source : Source
source = record {
  config_reads = true;
  is_set = λ _. true;
  get_string = λ k. if k == "filter.vendor" then "echo" else "text";
  get_int = λ _. pos 0;
  get_bool = λ k. k == "filter.resp_mode";
  get_duration = λ _. pos 5;
  get_string_slice = slice_of;
  getenv = λ _. "";
  parse_duration = λ _. pos 0;
}

abbrev pub page_url : Url
page_url = record { scheme = "http"; opaque_part = ""; host = "a.org"; path = "/a.pdf" }

abbrev pub page_request : Request
page_request = record {
  method = "GET";
  url = page_url;
  request_uri = "/a.pdf";
  header = [];
  remote_addr = "";
  host = "a.org";
  proto = "HTTP/1.1";
  body = [];
  is_zero = false;
}

abbrev pub page_response : Response
page_response = record {
  status_code = pos 200;
  status = "200 OK";
  header = ("Content-Type", "application/pdf" ∷ []) ∷ [];
  body = b'h' ∷ b'i' ∷ [];
  origin = none;
}

abbrev pub page : HttpMsg
page = record { request = some page_request; response = some page_response }
