-- ===== src/Tests/Services.antt =====
-- The services on a concrete message.
use icapegclh.Prelude.{String, true, false, ◌≡◌, ◌≢◌, refl, some, none, inr, [], ◌∷◌}
use icapegclh.Prelude.Int.{pos}
use icapegclh.Prelude.Outcome.{Outcome, done, panicked}
use icapegclh.Header
use icapegclh.Http.{HttpMsg, nil_message, response_message}
use icapegclh.External.{scan_open}
use icapegclh.Exchange.{exchange}
use icapegclh.Extension.{init_exts_arr}
use icapegclh.GeneralFunc.Headers.{log_http_msg_headers, log_header}
use icapegclh.Service.Reply.{Reply, Extracted, first_content_type}
use icapegclh.Service.Dispatch.{hashlookup, processing}
use icapegclh.Service.Status.{IsFinal}
use icapegclh.Service.Kinds.{WholeFits}
use icapegclh.Service.Fitting.{processing-WholeFits}
use icapegclh.Service.Final.{processing-IsFinal, processing-preview}
use icapegclh.Service.Scanned.{Scanned, scan-Scanned}
use icapegclh.Service.Passing.{emptied, processing-response}
use icapegclh.Service.Echo
use icapegclh.Service.Echo.Config.{Echo}
use icapegclh.GeneralFunc.Extensions.{decide, process}
use icapegclh.GeneralFunc.Files.{get_mime_extension, get_file_name}
use icapegclh.GeneralFunc.Messages.{with_file_response}
use icapegclh.Service.Hashlookup
use icapegclh.Service.Hashlookup.{is_known}
use icapegclh.Service.Hashlookup.Config.{Hashlookup}
use icapegclh.Service.Clamav
use icapegclh.Service.Clamav.Config.{Clamav}
use icapegclh.Tests.{libraries, source, page, page_request, page_response}

abbrev pub hash_service : Hashlookup
hash_service = record {
  x_icap_metadata = "m";
  service_name = "hash";
  method_name = "RESPMOD";
  max_file_size = pos 0;
  bypass_exts = [];
  process_exts = "*" ∷ [];
  reject_exts = [];
  ext_arrs = init_exts_arr ("*" ∷ []) [] [];
  scan_url = "http://lookup/";
  timeout = pos 5;
  return_orig_if_max_size_exc = false;
  return_400_if_file_ext_rejected = false;
  bypass_on_api_error = false;
  verify_server_cert = false;
  file_hash = "";
  case_block_http_response_code = pos 403;
  case_block_http_body = true;
  exception_page = "";
}

abbrev pub clamav_at : String → Clamav
clamav_at path = record {
  x_icap_metadata = "m";
  service_name = "clamav";
  method_name = "RESPMOD";
  max_file_size = pos 0;
  bypass_exts = [];
  process_exts = "*" ∷ [];
  reject_exts = [];
  ext_arrs = init_exts_arr ("*" ∷ []) [] [];
  socket_path = path;
  timeout = pos 5;
  return_orig_if_max_size_exc = false;
  return_400_if_file_ext_rejected = false;
  bypass_on_api_error = false;
  verify_server_cert = false;
  file_hash = "";
  case_block_http_response_code = pos 403;
  case_block_http_body = true;
  exception_page = "";
}

abbrev pub extracted : Extracted
extracted = record {
  service_headers = [];
  headers_before = [];
  icap_header = [];
  file = b'h' ∷ b'i' ∷ [];
  req_content_type = none;
}

abbrev continue_reply : Reply
continue_reply = record {
  status = 100;
  message = nil_message;
  service_headers = none;
  headers_before = ("Content-Type", "application/pdf") ∷ [];
  headers_after = [];
  vendor_msgs = [];
  icap_header = ("X-ICAP-Metadata", "m" ∷ []) ∷ [];
}

previews :
    processing libraries source (hashlookup hash_service) true [] page ≡ done (continue_reply, page)
unfolding processing Hashlookup.processing Hashlookup.is_byte_range log_http_msg_headers log_header
    icapegclh.GeneralFunc.Headers.log_values Header.add Header.lookup Header.insert Header.remove
    exchange
previews = refl

processing-preview_example :
    (continue_reply.status ≡ 100) × (continue_reply.message ≡ nil_message) × (page ≡ page)
processing-preview_example =
    processing-preview libraries source (hashlookup hash_service) [] page page continue_reply
      previews

abbrev reply_of : Outcome (Reply × HttpMsg) → Reply
reply_of (done (r, _)) = r
reply_of panicked = continue_reply

abbrev messages_of : Outcome (Reply × HttpMsg) → HttpMsg
messages_of (done (_, s)) = s
messages_of panicked = page

abbrev run : Outcome (Reply × HttpMsg)
run = processing libraries source (hashlookup hash_service) false [] page

returns : run ≡ done (reply_of run, messages_of run)
unfolding processing Hashlookup.processing Hashlookup.is_byte_range Hashlookup.extract_file
    Hashlookup.process_file Hashlookup.is_connect Hashlookup.checked Hashlookup.check_file
    Hashlookup.extension_of Hashlookup.after_check Hashlookup.is_over_size Hashlookup.scan
    Hashlookup.send_file_to_scan Hashlookup.is_known Hashlookup.after_scan Hashlookup.block
    log_http_msg_headers log_header exchange Header.lookup Header.add
    icapegclh.GeneralFunc.Headers.log_values icapegclh.GeneralFunc.Files.copying_file_to_the_buffer
    icapegclh.GeneralFunc.Files.get_file_name icapegclh.GeneralFunc.Files.get_mime_extension
    icapegclh.GeneralFunc.Pages.gen_html_page icapegclh.GeneralFunc.Extensions.check_the_extension
    icapegclh.GeneralFunc.Extensions.apply_decision icapegclh.GeneralFunc.Extensions.decide
    icapegclh.Extension.init_exts_arr icapegclh.Service.Reply.blocked_response
    icapegclh.GeneralFunc.Pages.err_page_resp icapegclh.GeneralFunc.Extensions.in_string_slice
returns = refl

processing-IsFinal_example : IsFinal (reply_of run).status
processing-IsFinal_example =
    processing-IsFinal libraries source (hashlookup hash_service) [] page (messages_of run)
      (reply_of run) returns

processing-WholeFits_example : WholeFits "RESPMOD" (reply_of run)
processing-WholeFits_example =
    processing-WholeFits libraries source (hashlookup hash_service) false [] page (messages_of run)
      (reply_of run) (inr refl) returns

abbrev found_run : Outcome (Reply × HttpMsg)
found_run = Clamav.scan libraries source (clamav_at "/run/clamd.sock") extracted page

finds : found_run ≡ done (reply_of found_run, messages_of found_run)
unfolding Clamav.scan Clamav.after_stream Clamav.last_result Clamav.after_scan Clamav.block
    log_http_msg_headers exchange icapegclh.GeneralFunc.Pages.gen_html_page
finds = refl

scan-Scanned_example :
    (libraries.scan_stream "/run/clamd.sock" extracted.file ≢ scan_open)
    × Scanned (reply_of found_run).status
scan-Scanned_example =
    scan-Scanned libraries source (clamav_at "/run/clamd.sock") extracted page
      (messages_of found_run) (reply_of found_run) finds

abbrev pub echo_service : Echo
echo_service = record {
  x_icap_metadata = "m";
  service_name = "echo";
  method_name = "RESPMOD";
  max_file_size = pos 100;
  bypass_exts = [];
  process_exts = "*" ∷ [];
  reject_exts = "exe" ∷ [];
  ext_arrs = init_exts_arr ("*" ∷ []) ("exe" ∷ []) [];
  return_orig_if_max_size_exc = false;
  return_400_if_file_ext_rejected = false;
}

abbrev page_extension : String
page_extension =
    get_mime_extension libraries page_response.body (first_content_type page_response.header)
      (get_file_name (emptied libraries source echo_service page_request page_response))

to_process :
    decide page_extension echo_service.process_exts echo_service.reject_exts
      echo_service.bypass_exts echo_service.ext_arrs
    ≡ process
unfolding get_mime_extension get_file_name icapegclh.GeneralFunc.Extensions.decide
    icapegclh.Extension.init_exts_arr Header.lookup icapegclh.GeneralFunc.Extensions.in_string_slice
    icapegclh.Text.split_char icapegclh.Text.path_base
to_process = refl

small_enough : Echo.is_over_size libraries source echo_service page_response.body ≡ false
unfolding Echo.is_over_size
small_enough = refl

processing-response_example :
    (reply : Reply) × (s' : HttpMsg) × (Echo.processing libraries source echo_service false [] page
      ≡ done (reply, s'))
    × (reply.status ≡ 200)
    × (reply.message
        ≡ response_message (with_file_response libraries page_response.body page_response))
    × (s' ≡ record {
      request = some page_request;
      response = some (with_file_response libraries page_response.body page_response);
    })
processing-response_example =
    processing-response libraries source echo_service [] page_request page_response refl refl
      to_process small_enough
