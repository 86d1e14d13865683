-- ===== src/Service/Echo.antt =====
-- service/services/echo: the service that returns the message, unless a rule about its file says
-- otherwise.
pub mod Config
use icapegclh.Prelude.{
  ℕ, ◌/◌, String, ◌<>◌, Bool, true, false, not, ◌&&◌, Option, none, some, List, [], ◌∷◌, ◌==◌,
  length, if◌then◌else◌,
}
use icapegclh.Prelude.Int.{is_zero, lt_length}
use icapegclh.Consts.{
  icap_mode_req, continue_status_code, ok_status_code, internal_server_err_status_code,
  block_page_path,
}
use icapegclh.Text.{itoa}
use icapegclh.FormPart.{Bytes}
use icapegclh.Header.{Header}
use icapegclh.Http.{Message, nil_message, request_message, response_message, whole_message}
use icapegclh.External.{External}
use icapegclh.Settings.{Source}
use icapegclh.ContentTypes.{ContentType}
use icapegclh.Exchange.{
  M, ◌>>=◌, ◌>>◌, pure, maybe, abort, lift, current, the_request, the_response,
}
use icapegclh.GeneralFunc.Files.{
  copying_file_to_the_buffer, get_file_name, get_mime_extension, preparing_file_after_scanning,
}
use icapegclh.GeneralFunc.Headers.{log_http_msg_headers}
use icapegclh.GeneralFunc.Messages.{
  returning_http_message_with_file, if_status_is_204_with_file, set_message_body,
}
use icapegclh.GeneralFunc.Pages.{if_max_file_size_exc}
use icapegclh.GeneralFunc.Extensions.{check_the_extension}
use icapegclh.Service.Reply.{Reply, Extracted, reply_with, first_content_type}
use Config.{Echo, echo_identifier}

module _ (ext : External) (src : Source) (e : Echo) where
  -- The file's extension, from the content type and the name in the message.
  unfoldable pub extension_of : Bytes → M String
  extension_of file =
      if e.method_name == icap_mode_req
      then (do
        r ← the_request
        msg ← current
        pure (get_mime_extension ext file (first_content_type r.header) (get_file_name msg)))
      else (do
        r ← the_response
        msg ← current
        pure (get_mime_extension ext file (first_content_type r.header) (get_file_name msg)))

  abbrev pub file_size_of : Bytes → String
  file_size_of file = itoa (length file / 1000) <> " kb"

  -- The call of `CheckTheExtension`.
  unfoldable pub check_file : Extracted → M (Bool × ℕ × Message)
  check_file x = do
    file_extension ← extension_of x.file
    r ← the_request
    check_the_extension ext src file_extension e.ext_arrs e.process_exts e.reject_exts e.bypass_exts
        (record {
          service_name = e.service_name;
          method_name = e.method_name;
          identifier = echo_identifier;
          request_uri = r.request_uri;
          return_400_if_file_ext_rejected = e.return_400_if_file_ext_rejected;
          is_gzip = false;
          req_content_type = x.req_content_type;
          file = x.file;
          block_page_path = block_page_path;
          file_size = file_size_of x.file;
          x_icap_metadata = e.x_icap_metadata;
        })

  -- `e.maxFileSize != 0 && e.maxFileSize < file.Len()`
  unfoldable pub is_over_size : Bytes → Bool
  is_over_size file = not (is_zero e.max_file_size) && lt_length e.max_file_size (length file)

  -- The reply to a file that is larger than the limit.
  unfoldable pub over_size : Extracted → M Reply
  over_size x = do
    (status, page, msg) ←
        if_max_file_size_exc ext src e.x_icap_metadata e.return_orig_if_max_size_exc e.service_name
          e.method_name x.file block_page_path (file_size_of x.file)
    maybe page (abort) (λ file. do
      prepared ←
          if_status_is_204_with_file ext e.method_name status file false x.req_content_type msg true
      maybe prepared
          (pure
            (reply_with x internal_server_err_status_code nil_message (some x.service_headers) []))
          (λ (file_after_prep, http_msg). do
            m ← set_message_body http_msg file_after_prep
            after ← log_http_msg_headers e.method_name
            pure (reply_with x status m none after)))

  -- The reply with the file as it came.
  unfoldable pub deliver : Extracted → M Reply
  deliver x = do
    scanned_file ← lift (preparing_file_after_scanning ext x.file x.req_content_type e.method_name)
    after ← log_http_msg_headers e.method_name
    m ← returning_http_message_with_file ext e.method_name scanned_file
    pure (reply_with x ok_status_code m (some x.service_headers) after)

  -- What follows the check of the extension.
  unfoldable pub after_check : Extracted → Bool × ℕ × Message → M Reply
  after_check x (true, icap_status, http_msg) =
      if is_over_size x.file then over_size x else deliver x
  after_check x (false, icap_status, http_msg) = do
    after ← log_http_msg_headers e.method_name
    pure (reply_with x icap_status http_msg (some x.service_headers) after)

  unfoldable pub checked : Extracted → M Reply
  checked x = do c ← check_file x; after_check x c

  -- The reply to a CONNECT request.
  unfoldable pub connected : Extracted → M Reply
  connected x = do
    m ← returning_http_message_with_file ext e.method_name x.file
    pure (reply_with x ok_status_code m (some x.service_headers) [])

  -- What follows the extraction of the file.
  unfoldable pub process_file : Extracted → M Reply
  process_file x = do r ← the_request; if r.method == "CONNECT" then connected x else checked x

  -- `CopyingFileToTheBuffer`, and what follows it.
  unfoldable pub extract_file : Extracted → M Reply
  extract_file x = do
    copied ← copying_file_to_the_buffer ext e.method_name
    maybe copied
        (pure
          (reply_with x internal_server_err_status_code nil_message (some x.service_headers) []))
        (λ (file, req_content_type).
          process_file (record x { file = file; req_content_type = req_content_type }))

  unfoldable pub processing : Bool → Header → M Reply
  processing partial icap_header = do
    before ← log_http_msg_headers e.method_name
    let x : Extracted = record {
      service_headers = ("X-ICAP-Metadata", e.x_icap_metadata) ∷ [];
      headers_before = before;
      icap_header = icap_header;
      file = [];
      req_content_type = none;
    }
    if partial then pure (reply_with x continue_status_code nil_message none []) else extract_file x
