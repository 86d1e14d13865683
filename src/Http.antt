-- ===== src/Http.antt =====
-- The fields of `net/http` messages that the program reads or writes, http-message/httpMessage.go,
-- and what an `interface{}` that carries a message can hold.
use icapegclh.Prelude.{String, Bool, Option}
use icapegclh.Prelude.Int.{ℤ}
use icapegclh.Header.{Header}
use icapegclh.FormPart.{Bytes}

pub record Url : Type 0 where
  pub scheme : String
  pub opaque_part : String
  pub host : String
  pub path : String

-- `body` is what is left to read of the body. `is_zero` tells the request `&http.Request{}`, whose URL,
-- header map and body are nil and whose texts are empty, from the requests that were read or built.
pub record Request : Type 0 where
  pub method : String
  pub url : Url
  pub request_uri : String
  pub header : Header
  pub remote_addr : String
  pub host : String
  pub proto : String
  pub body : Bytes
  pub is_zero : Bool

-- The part of `Response.Request` that is read.
pub record Origin : Type 0 where
  pub request_uri : String
  pub url : Url

pub record Response : Type 0 where
  pub status_code : ℤ
  pub status : String
  pub header : Header
  pub body : Bytes
  pub origin : Option Origin

-- `none` is a nil pointer.
pub record HttpMsg : Type 0 where
  pub request : Option Request
  pub response : Option Response

-- The `interface{}` results: nil, `*http.Request`, `*http.Response`, or the `*HttpMsg` itself.
pub data Message : Type 0 where
  nil_message : Message
  request_message : Request → Message
  response_message : Response → Message
  whole_message : HttpMsg → Message

abbrev pub new_http_msg : Option Request → Option Response → HttpMsg
new_http_msg request response = record { request = request; response = response }
