-- ===== src/ContentTypes.antt =====
-- service/services-utilities/ContentTypes: which file a request's body holds, and the body that is
-- written back when the file has been scanned.
pub mod Base64
pub mod Laws
pub mod Encoded
use text.Mathlib.Text.{starts_with}
use icapegclh.Prelude.{
  ℕ, String, Bool, true, false, ◌&&◌, ◌||◌, Option, none, some, List, [], ◌∷◌, map, leb, nat_eq,
  ◌==◌, if◌then◌else◌,
}
use icapegclh.FormPart.{Bytes, FormPart, FormWrite, write_field, write_file}
use icapegclh.Header.{get, lookup, insert}
use icapegclh.Http.{Request}
use icapegclh.External.{External, Data, quoted}

pub record RegularFile : Type 0 where
  pub buf : Bytes
  pub encoded : Bool

pub record MultipartForm : Type 0 where
  pub form_parts : List FormPart
  pub the_file : FormPart
  pub boundary : String

-- The types that implement the interface `ContentType`.
pub data ContentType : Type 0 where
  multipart : MultipartForm → ContentType
  encoded_file : Data → ContentType
  regular : RegularFile → ContentType

-- `[A-Za-z0-9+/]`
is_base64_char : ℕ → Bool
is_base64_char c =
    (leb b'A' c && leb c b'Z')
    || (leb b'a' c && leb c b'z')
    || (leb b'0' c && leb c b'9')
    || nat_eq c b'+'
    || nat_eq c b'/'

-- `([A-Za-z0-9+/]{3}=|[A-Za-z0-9+/]{2}==)$`
is_padded : ℕ → ℕ → ℕ → ℕ → Bytes → Bool
is_padded a b c d [] =
    is_base64_char a && is_base64_char b && (is_base64_char c || nat_eq c b'=') && nat_eq d b'='
is_padded a b c d (_ ∷ _) = false

-- `^([A-Za-z0-9+/]{4})*([A-Za-z0-9+/]{3}=|[A-Za-z0-9+/]{2}==)?$`
unfoldable pub matches_base64 : Bytes → Bool
unfolding is_base64_char is_padded
matches_base64 [] = true
matches_base64 (a ∷ b ∷ c ∷ d ∷ rest) =
    (is_base64_char a
      && is_base64_char b
      && is_base64_char c
      && is_base64_char d
      && matches_base64 rest)
    || is_padded a b c d rest
matches_base64 _ = false

abbrev no_part : FormPart
no_part = record { form_name = ""; file_name = ""; content = [] }

-- The first part that has a file name, or the zero part.
unfoldable pub first_file : List FormPart → FormPart
first_file [] = no_part
first_file (p ∷ ps) = if p.file_name == "" then first_file ps else p

-- The loop of `BodyAfterScanning`: the first part with the file's names is replaced.
unfoldable pub replace_part : FormPart → List FormPart → List FormPart
replace_part f [] = []
replace_part f (p ∷ ps) =
    if p.file_name == f.file_name && p.form_name == f.form_name
    then f ∷ ps
    else p ∷ replace_part f ps

unfoldable pub part_write : FormPart → FormWrite
part_write p =
    if p.file_name == ""
    then write_field p.form_name p.content
    else write_file p.form_name p.file_name p.content

module _ (ext : External) where
  -- `ParsingRequest`
  unfoldable pub parsing_request : Request → MultipartForm
  parsing_request req =
      let boundary = ext.media_boundary (get ext.canonical req.header "Content-Type") in
      let form_parts = ext.read_parts req.body boundary in
      record { form_parts = form_parts; the_file = first_file form_parts; boundary = boundary }

  unfoldable pub creating_multipart_form : MultipartForm → Bytes
  creating_multipart_form m = ext.write_form m.boundary (map part_write m.form_parts)

  -- `GetContentType`. The body is read to its end in every case: see `drained`.
  unfoldable pub get_content_type : Request → ContentType
  get_content_type req =
      let content_type = get ext.canonical req.header "Content-Type" in
      let data_map = ext.json_decode req.body in
      if starts_with content_type "multipart/"
      then multipart (parsing_request req)
      else if starts_with content_type "application/json"
      then elim (lookup "Base64" data_map) [
        | some _ ↦ encoded_file data_map
        | none ↦ regular (record { buf = ext.json_encode data_map; encoded = false })
      ]
      else regular (record { buf = req.body; encoded = false })

  -- `GetFileFromRequest`. The receiver of a `RegularFile` is a copy, so the `Encoded` that is set
  -- on it is lost.
  unfoldable pub get_file_from_request : ContentType → Bytes
  get_file_from_request (multipart m) = m.the_file.content
  get_file_from_request (encoded_file d) = ext.base64_decode (ext.sprint (lookup "Base64" d))
  get_file_from_request (regular r) =
      if matches_base64 r.buf then ext.base64_decode r.buf else r.buf

  -- `BodyAfterScanning`
  unfoldable pub body_after_scanning : ContentType → Bytes → Bytes
  body_after_scanning (multipart m) body =
      let f = record m.the_file { content = body } in
      creating_multipart_form (record m { the_file = f; form_parts = replace_part f m.form_parts })
  body_after_scanning (encoded_file d) body =
      ext.json_encode (insert "Base64" (quoted (ext.base64_encode body)) d)
  body_after_scanning (regular r) body = if r.encoded then ext.base64_encode body else body

abbrev pub drained : Request → Request
drained req = record req { body = [] }
