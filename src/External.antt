-- ===== src/External.antt =====
-- What the program calls and does not implement: hashing, compression, templates, JSON, multipart
-- parsing, file type detection, the scanners and the network. Each is a function that the
-- definitions take; nothing is assumed of it but what a theorem names.
use icapegclh.Prelude.{String, Bool, Option, List}
use icapegclh.Prelude.Int.{ℤ}
use icapegclh.FormPart.{Bytes, FormPart, FormWrite}

mutual
  -- A value of `map[string]interface{}` that `encoding/json` decodes.
  pub data Json : Type 0 where
    null : Json
    boolean : Bool → Json
    number : String → Json
    quoted : Bytes → Json
    arr : Items → Json
    obj : Fields → Json

  pub data Items : Type 0 where
    no_items : Items
    item : Json → Items → Items

  pub data Fields : Type 0 where
    no_fields : Fields
    field : String → Json → Fields → Fields

abbrev pub Data : Type 0
Data = List (String × Json)

-- service/services-utilities/general-functions/general-functions.go: the data of a block page.
pub record ErrorPage : Type 0 where
  pub reason : String
  pub service_name : String
  pub requested_url : String
  pub identifier_id : String
  pub exception_page : String
  pub size : String
  pub x_icap_metadata : String

-- A result on clamd's channel.
pub record ScanResult : Type 0 where
  pub status : String
  pub description : String

-- `ScanStream` fails with an error's text, or answers on a channel; after five seconds the channel
-- is closed, with the results that it carried, or it is not.
pub data ScanStream : Type 0 where
  scan_error : String → ScanStream
  scan_closed : List ScanResult → ScanStream
  scan_open : ScanStream

-- The lookup request: `http.NewRequest` refuses the URL, the call fails with an error's text, or
-- the answer's body is decoded.
pub data Answer : Type 0 where
  bad_url : Answer
  call_error : String → Answer
  answered : Data → Answer

pub record External : Type 0 where
  pub canonical : String → String  -- textproto.CanonicalMIMEHeaderKey
  pub status_text : ℤ → String  -- http.StatusText
  pub gzip : Bytes → Option Bytes  -- gzip.Writer
  pub gzip_opens : Bytes → Bool  -- gzip.NewReader has no error
  pub gunzip : Bytes → Option Bytes  -- ReadAll of that reader
  pub base64_encode : Bytes → Bytes
  pub base64_decode : Bytes → Bytes  -- the error is dropped, the bytes before it stay
  pub json_decode : Bytes → Data  -- json.Unmarshal, error dropped
  pub json_encode : Data → Bytes  -- json.Marshal, error dropped
  pub sprint : Option Json → Bytes  -- fmt.Sprint of a map's entry
  pub media_boundary : String → String  -- mime.ParseMediaType(…)["boundary"]
  pub read_parts : Bytes → String → List FormPart  -- multipart.Reader
  pub write_form : String → List FormWrite → Bytes  -- multipart.Writer
  pub match_filetype : Bytes → Option String  -- filetype.Match; none is filetype.Unknown
  pub template_parses : String → Bool  -- template.ParseFiles has no error
  pub execute_template : String → ErrorPage → Bytes
  pub marshal_page : ErrorPage → Option Bytes  -- json.Marshal of an ErrorPage
  pub read_page : Bytes → ErrorPage  -- json.Decoder into an ErrorPage, error dropped
  pub sha256_hex : Bytes → String
  pub scan_stream : String → Bytes → ScanStream  -- clamd, by socket path
  pub look_up : String → ℤ → Answer  -- the hash lookup service, by URL and timeout
