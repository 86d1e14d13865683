-- ===== src/GeneralFunc/Files.antt =====
-- general-functions.go: the file in a message's body, its name, its type and its compression.
use icapegclh.Prelude.{
  String, Bool, true, false, not, Option, none, some, List, [], ◌∷◌, ltb, ◌==◌, length,
  if◌then◌else◌,
}
use icapegclh.Prelude.Outcome.{Outcome, done, panicked}
use icapegclh.Consts.{icap_mode_req, icap_mode_resp, unknown}
use icapegclh.Text.{byte_length, split_char, head_or, last_or, path_base}
use icapegclh.FormPart.{Bytes}
use icapegclh.Header.{get, lookup}
use icapegclh.Http.{HttpMsg, Request, Response, Origin}
use icapegclh.External.{External}
use icapegclh.ContentTypes.{
  ContentType, get_content_type, get_file_from_request, body_after_scanning, drained,
}
use icapegclh.Exchange.{
  M, ◌>>=◌, ◌>>◌, pure, the_request, the_built_request, the_response, put_request, put_response,
}

-- The map of known content types in `GetMimeExtension`.
abbrev known_types : List (String × String)
known_types =
    ("application/xml", "xml")
    ∷ ("application/html", "html")
    ∷ ("text/html", "html")
    ∷ ("text/json", "html")
    ∷ ("application/json", "json")
    ∷ ("text/plain", "txt")
    ∷ []

-- The URL path from which `GetFileName` takes the name: `none` where there is no message at all,
-- `some ""` where the request URI is empty.
abbrev named_path : Origin → String
named_path o = if o.request_uri == "" then "" else path_base o.url.path

name_source : HttpMsg → Option Request → Option String
name_source s none = none
name_source s (some r) = some (if r.request_uri == "" then "" else path_base r.url.path)

origin_of : Option Response → Option Origin
origin_of none = none
origin_of (some r) = r.origin

unfoldable pub get_file_name : HttpMsg → String
unfolding name_source origin_of byte_length
get_file_name s =
    let found : Option String = elim (origin_of s.response) [
      | some o ↦ some (named_path o)
      | none ↦ name_source s s.request
    ] in
    elim found [
      | none ↦ "unnamed_file"
      | some file_name ↦ if ltb (byte_length file_name) 2 then "unnamed_file" else file_name
    ]

unfoldable pub init_secure : Bool → Bool
init_secure verify_server_cert = if not verify_server_cert then true else false

module _ (ext : External) where
  unfoldable pub copying_file_to_the_buffer_resp : M Bytes
  copying_file_to_the_buffer_resp = do
    r ← the_response
    put_response (record r { body = [] })
    pure r.body

  unfoldable pub copying_file_to_the_buffer_req : M (Bytes × Option ContentType)
  copying_file_to_the_buffer_req = do
    r ← the_built_request
    let req_content_type = get_content_type ext r
    put_request (drained r)
    pure (get_file_from_request ext req_content_type, some req_content_type)

  -- `none` is an error. The bodies are buffers in memory, whose readers do not fail.
  unfoldable pub copying_file_to_the_buffer : String → M (Option (Bytes × Option ContentType))
  unfolding copying_file_to_the_buffer_resp copying_file_to_the_buffer_req
  copying_file_to_the_buffer method_name =
      if method_name == icap_mode_req
      then (do r ← copying_file_to_the_buffer_req; pure (some r))
      else if method_name == icap_mode_resp
      then (do file ← copying_file_to_the_buffer_resp; pure (some (file, none)))
      else pure (some ([], none))

  -- The type of the data, else of the known content types, else the file name's suffix.
  unfoldable pub get_mime_extension : Bytes → String → String → String
  get_mime_extension file content_type file_name =
      let plain_type = head_or "" (split_char b';' content_type) in
      let file_name_arr = split_char b'.' file_name in
      elim (ext.match_filetype file) [
        | some extension ↦ extension
        | none ↦ elim (lookup plain_type known_types) [
          | some e ↦ e
          | none ↦ if ltb 1 (length file_name_arr) then last_or "" file_name_arr else unknown
        ]
      ]

  unfoldable pub is_body_gzip_compressed : String → M Bool
  is_body_gzip_compressed method_name =
      if method_name == icap_mode_req
      then (do r ← the_request; pure (get ext.canonical r.header "Content-Encoding" == "gzip"))
      else if method_name == icap_mode_resp
      then (do r ← the_response; pure (get ext.canonical r.header "Content-Encoding" == "gzip"))
      else pure false

  -- A reader that does not open is nil, and is read all the same.
  unfoldable pub decompress_gzip_body : Bytes → Outcome (Option Bytes)
  decompress_gzip_body file = if ext.gzip_opens file then done (ext.gunzip file) else panicked

  unfoldable pub compress_file_gzip : Bytes → Option Bytes
  compress_file_gzip scanned_file = ext.gzip scanned_file

  -- In REQMOD a nil `reqContentType` is dereferenced.
  unfoldable pub preparing_file_after_scanning : Bytes → Option ContentType → String → Outcome Bytes
  preparing_file_after_scanning scanned_file req_content_type method_name =
      if method_name == icap_mode_req
      then elim req_content_type [
        | some t ↦ done (body_after_scanning ext t scanned_file)
        | none ↦ panicked
      ]
      else done scanned_file
