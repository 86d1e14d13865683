-- ===== src/Service/Reply.antt =====
-- What `Processing` returns, and what its stages share.
use icapegclh.Prelude.{ℕ, String, Bool, true, false, Option, List, [], nat_eq}
use icapegclh.Prelude.Int.{ℤ, pos, negsuc}
use icapegclh.Text.{head_or}
use icapegclh.FormPart.{Bytes}
use icapegclh.Header.{Header, lookup, values_or_nil, remove}
use icapegclh.Http.{Message, Response}
use icapegclh.ContentTypes.{ContentType}

-- The six results, and the ICAP header map, which two services write to.
pub record Reply : Type 0 where
  pub status : ℕ
  pub message : Message
  pub service_headers : Option (List (String × String))
  pub headers_before : List (String × String)
  pub headers_after : List (String × String)
  pub vendor_msgs : List (String × String)
  pub icap_header : Header

-- What is known when the file has been extracted.
pub record Extracted : Type 0 where
  pub service_headers : List (String × String)
  pub headers_before : List (String × String)
  pub icap_header : Header
  pub file : Bytes
  pub req_content_type : Option ContentType

-- `return status, message, headers, before, after, vendorMsgs`
abbrev pub reply_with :
    Extracted → ℕ → Message → Option (List (String × String)) → List (String × String) → Reply
reply_with x status message headers after = record {
  status = status;
  message = message;
  service_headers = headers;
  headers_before = x.headers_before;
  headers_after = after;
  vendor_msgs = [];
  icap_header = x.icap_header;
}

-- `contentType = header["Content-Type"]`, with "" where there is none, and its first element
abbrev pub first_content_type : Header → String
first_content_type h = head_or "" (values_or_nil (lookup "Content-Type" h))

-- `StatusCode == 206`
abbrev pub is_partial_content : ℤ → Bool
is_partial_content (pos n) = nat_eq n 206
is_partial_content (negsuc n) = false

-- The block page as the body, or an empty body and no headers about it.
unfoldable pub blocked_response : Bool → Bytes → Response → Response
blocked_response true page resp = record resp { body = page }
blocked_response false page resp = record resp {
  body = [];
  header = remove "Content-Length" (remove "Content-Type" resp.header);
}
