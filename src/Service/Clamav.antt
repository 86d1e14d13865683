-- ===== src/Service/Clamav.antt =====
-- service/services/clamav: the service that hands the file to a ClamAV daemon.
pub mod Config
use icapegclh.Prelude.{
  ℕ, String, ◌<>◌, Bool, true, false, not, ◌&&◌, Option, none, some, List, [], ◌∷◌, ◌==◌, nat_eq,
  ltb, length, if◌then◌else◌,
}
use icapegclh.Prelude.Int.{ℤ, pos, negsuc, is_zero, lt_length}
use icapegclh.Prelude.Outcome.{Outcome, done, panicked}
use icapegclh.Consts.{
  icap_mode_req, icap_mode_resp, continue_status_code, ok_status_code,
  internal_server_err_status_code, bad_request_status_code, request_time_out_status_code,
  no_modification_status_code, block_page_path, err_page_reason_file_is_not_safe,
}
use icapegclh.Text.{itoa, contains}
use icapegclh.FormPart.{Bytes}
use icapegclh.Header.{Header, add, lookup, remove, insert}
use icapegclh.Http.{
  Message, nil_message, request_message, response_message, whole_message, Response,
}
use icapegclh.External.{External, ScanStream, scan_error, scan_closed, scan_open, ScanResult}
use icapegclh.Settings.{Source}
use icapegclh.Exchange.{
  M, ◌>>=◌, ◌>>◌, pure, maybe, abort, lift, current, the_request, the_response, put_response,
}
use icapegclh.GeneralFunc.Files.{
  copying_file_to_the_buffer, get_file_name, get_mime_extension, preparing_file_after_scanning,
}
use icapegclh.GeneralFunc.Headers.{log_http_msg_headers}
use icapegclh.GeneralFunc.Messages.{
  returning_http_message_with_file, if_status_is_204_with_file, if_icap_status_is_204,
  set_message_body,
}
use icapegclh.GeneralFunc.Pages.{
  if_max_file_size_exc, err_page_resp, gen_html_page, req_mod_err_page,
}
use icapegclh.GeneralFunc.Extensions.{check_the_extension}
use icapegclh.Service.Reply.{
  Reply, Extracted, reply_with, first_content_type, blocked_response, is_partial_content,
}
use Config.{Clamav, clamav_mal_status}

abbrev no_result : ScanResult
no_result = record { status = ""; description = "" }

-- `for s := range response { result = s }`
unfoldable pub last_result : ScanResult → List ScanResult → ScanResult
last_result result [] = result
last_result result (s ∷ rest) = last_result s rest

module _ (ext : External) (src : Source) (c : Clamav) where
  -- The file's extension, from the content type and the name in the message.
  unfoldable pub extension_of : Bytes → M String
  extension_of file =
      if c.method_name == icap_mode_req
      then (do
        r ← the_request
        msg ← current
        pure (get_mime_extension ext file (first_content_type r.header) (get_file_name msg)))
      else (do
        r ← the_response
        msg ← current
        pure (get_mime_extension ext file (first_content_type r.header) (get_file_name msg)))

  abbrev pub file_size_of : Bytes → String
  file_size_of file = itoa (length file)

  -- The configured page, or the default one.
  abbrev pub exception_page_path : String
  exception_page_path = if c.exception_page == "" then block_page_path else c.exception_page

  -- The call of `CheckTheExtension`.
  unfoldable pub check_file : Extracted → M (Bool × ℕ × Message)
  check_file x = do
    file_extension ← extension_of x.file
    r ← the_request
    check_the_extension ext src file_extension c.ext_arrs c.process_exts c.reject_exts c.bypass_exts
        (record {
          service_name = c.service_name;
          method_name = c.method_name;
          identifier = ext.sha256_hex x.file;
          request_uri = r.request_uri;
          return_400_if_file_ext_rejected = c.return_400_if_file_ext_rejected;
          is_gzip = false;
          req_content_type = x.req_content_type;
          file = x.file;
          block_page_path = exception_page_path;
          file_size = file_size_of x.file;
          x_icap_metadata = c.x_icap_metadata;
        })

  -- `e.maxFileSize != 0 && c.maxFileSize < file.Len()`
  unfoldable pub is_over_size : Bytes → Bool
  is_over_size file = not (is_zero c.max_file_size) && lt_length c.max_file_size (length file)

  -- The reply to a file that is larger than the limit.
  unfoldable pub over_size : Extracted → M Reply
  over_size x = do
    (status, page, msg) ←
        if_max_file_size_exc ext src c.x_icap_metadata c.return_orig_if_max_size_exc c.service_name
          c.method_name x.file exception_page_path (file_size_of x.file)
    maybe page (abort) (λ file. do
      prepared ←
          if_status_is_204_with_file ext c.method_name status file false x.req_content_type msg true
      maybe prepared
          (pure
            (reply_with x internal_server_err_status_code nil_message (some x.service_headers) []))
          (λ (file_after_prep, http_msg). do
            m ← set_message_body http_msg file_after_prep
            after ← log_http_msg_headers c.method_name
            pure (reply_with x status m none after)))

  -- The reply to a file that is not safe.
  unfoldable pub block : Extracted → ScanResult → M Reply
  block x result =
      if c.method_name == icap_mode_resp
      then (do
        r ← the_request
        page ← lift (
            gen_html_page ext exception_page_path err_page_reason_file_is_not_safe c.service_name
              c.file_hash r.request_uri (file_size_of x.file) c.x_icap_metadata)
        let resp =
            blocked_response c.case_block_http_body page
              (err_page_resp ext c.case_block_http_response_code (length page))
        put_response resp
        after ← log_http_msg_headers c.method_name
        pure (reply_with x ok_status_code (response_message resp) (some x.service_headers) after))
      else (do
        made ←
            req_mod_err_page ext src err_page_reason_file_is_not_safe c.service_name c.file_hash
              (file_size_of x.file)
        maybe made (pure (reply_with x internal_server_err_status_code nil_message none []))
            (λ (page, req). do
              after ← log_http_msg_headers c.method_name
              pure (
                  reply_with x ok_status_code (request_message (record req { body = page }))
                    (some (insert "X-Virus-ID" result.description x.service_headers)) after)))

  -- The reply to a scan that has not ended after five seconds: `err.Error()` of an error that may
  -- be nil.
  unfoldable pub not_finished : Extracted → Option String → M Reply
  not_finished x none = abort
  not_finished x (some err) =
      if contains err "context deadline exceeded"
      then pure (reply_with x request_time_out_status_code nil_message none [])
      else pure (reply_with x bad_request_status_code nil_message none [])

  -- The reply to a file that the daemon did not find fault with.
  unfoldable pub deliver : Extracted → M Reply
  deliver x = do
    msg ← current
    prepared ←
        if_icap_status_is_204 ext c.method_name no_modification_status_code x.file false
          x.req_content_type (whole_message msg)
    maybe prepared (pure (reply_with x internal_server_err_status_code nil_message none []))
        (λ (file_after_prep, http_msg). do
          m ← set_message_body http_msg file_after_prep
          after ← log_http_msg_headers c.method_name
          pure (reply_with x no_modification_status_code m (some x.service_headers) after))

  -- `result.Status == ClamavMalStatus`
  unfoldable pub after_scan : Extracted → ScanResult → M Reply
  after_scan x result = if result.status == clamav_mal_status then block x result else deliver x

  -- What follows the answer of the daemon; the error is nil where the stream was opened.
  unfoldable pub after_stream : Extracted → ScanStream → M Reply
  after_stream x (scan_error err) =
      pure (reply_with x internal_server_err_status_code nil_message (some x.service_headers) [])
  after_stream x (scan_closed results) = after_scan x (last_result no_result results)
  after_stream x scan_open = not_finished x none

  unfoldable pub scan : Extracted → M Reply
  scan x = after_stream x (ext.scan_stream c.socket_path x.file)

  -- The test for a CONNECT request, in REQMOD only.
  unfoldable pub is_connect : M Bool
  is_connect =
      if c.method_name == icap_mode_req
      then (do r ← the_request; pure (r.method == "CONNECT"))
      else pure false

  -- What follows the check of the extension.
  unfoldable pub after_check : Extracted → Bool × ℕ × Message → M Reply
  after_check x (true, icap_status, http_msg) = if is_over_size x.file then over_size x else scan x
  after_check x (false, icap_status, http_msg) = do
    after ← log_http_msg_headers c.method_name
    pure (reply_with x icap_status http_msg (some x.service_headers) after)

  unfoldable pub checked : Extracted → M Reply
  checked x = do c ← check_file x; after_check x c

  -- The reply to a CONNECT request.
  unfoldable pub connected : Extracted → M Reply
  connected x = do
    m ← returning_http_message_with_file ext c.method_name x.file
    pure (reply_with x ok_status_code m (some x.service_headers) [])

  -- What follows the extraction of the file.
  unfoldable pub process_file : Extracted → M Reply
  process_file x = do connect ← is_connect; if connect then connected x else checked x

  -- `CopyingFileToTheBuffer`, and what follows it.
  unfoldable pub extract_file : Extracted → M Reply
  extract_file x = do
    copied ← copying_file_to_the_buffer ext c.method_name
    maybe copied
        (pure
          (reply_with x internal_server_err_status_code nil_message (some x.service_headers) []))
        (λ (file, req_content_type).
          process_file (record x { file = file; req_content_type = req_content_type }))

  -- `c.methodName == "RESPMOD"`, and a response that is a byte range.
  unfoldable pub is_byte_range : M Bool
  is_byte_range = do
    msg ← current
    pure (
        c.method_name == icap_mode_resp
        && elim msg.response [ none ↦ false | some r ↦ is_partial_content r.status_code ])

  -- The reply to a byte range: the pair of messages itself.
  unfoldable pub byte_range_reply : Extracted → M Reply
  byte_range_reply x = do
    msg ← current
    pure (reply_with x no_modification_status_code (whole_message msg) (some x.service_headers) [])

  unfoldable pub processing : Bool → Header → M Reply
  processing partial icap_header = do
    before ← log_http_msg_headers c.method_name
    let x : Extracted = record {
      service_headers = ("X-ICAP-Metadata", c.x_icap_metadata) ∷ [];
      headers_before = before;
      icap_header = add ext.canonical "X-ICAP-Metadata" c.x_icap_metadata icap_header;
      file = [];
      req_content_type = none;
    }
    byte_range ← is_byte_range
    if partial
        then pure (reply_with x continue_status_code nil_message none [])
        else if byte_range
        then byte_range_reply x
        else extract_file x
