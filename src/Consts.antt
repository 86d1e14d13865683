-- ===== src/Consts.antt =====
-- consts/consts.go: the constants that the services and the request handler share.
use icapegclh.Prelude.{ℕ, String}

-- The ICAP methods.
abbrev pub icap_mode_resp : String
icap_mode_resp = "RESPMOD"

abbrev pub icap_mode_options : String
icap_mode_options = "OPTIONS"

abbrev pub icap_mode_req : String
icap_mode_req = "REQMOD"

-- The texts of the extension lists and of the unknown file type.
abbrev pub unknown : String
unknown = "unknown"

abbrev pub any_ext : String
any_ext = "*"

abbrev pub process_exts : String
process_exts = "process"

abbrev pub reject_exts : String
reject_exts = "reject"

abbrev pub bypass_exts : String
bypass_exts = "bypass"

-- The status codes.
abbrev pub no_modification_status_code : ℕ
no_modification_status_code = 204

abbrev pub bad_request_status_code : ℕ
bad_request_status_code = 400

abbrev pub ok_status_code : ℕ
ok_status_code = 200

abbrev pub internal_server_err_status_code : ℕ
internal_server_err_status_code = 500

abbrev pub continue_status_code : ℕ
continue_status_code = 100

abbrev pub request_time_out_status_code : ℕ
request_time_out_status_code = 408

abbrev pub method_not_allowed_for_service_code : ℕ
method_not_allowed_for_service_code = 405

abbrev pub icap_service_not_found_code : ℕ
icap_service_not_found_code = 404

-- Header names, and the texts of block pages.
abbrev pub content_length : String
content_length = "Content-Length"

abbrev pub content_type : String
content_type = "Content-Type"

abbrev pub html_content_type : String
html_content_type = "text/html"

abbrev pub block_page_path : String
block_page_path = "block-page.html"

abbrev pub err_page_reason_file_rejected : String
err_page_reason_file_rejected = "fileRejected"

abbrev pub err_page_reason_max_file_exceeded : String
err_page_reason_max_file_exceeded = "maxFileSizeExceeded"

abbrev pub err_page_reason_file_is_not_safe : String
err_page_reason_file_is_not_safe = "fileIsNotSafe"

-- The letters and the length of the text that identifies a request.
abbrev pub identifier_string : String
identifier_string = "abcdefghijklmnopqrstuvwxyz0123456789"

abbrev pub icap_request_id_len : ℕ
icap_request_id_len = 20
