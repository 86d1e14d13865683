-- ===== src/ContentTypes/Encoded.antt =====
-- encodedFile.go: a file that is a field of a JSON body.
use text.Mathlib.Text.{starts_with}
use icapegclh.Prelude.{String, true, false, ◌≡◌, refl, ◌∙◌, ap, some, ◌==◌, if◌then◌else◌}
use icapegclh.FormPart.{Bytes}
use icapegclh.Header.{get, lookup, insert, lookup-insert}
use icapegclh.Http.{Request}
use icapegclh.External.{External, Data, quoted}
use icapegclh.ContentTypes.{
  encoded_file, get_content_type, get_file_from_request, body_after_scanning,
}

-- The data of the body that is written back.
abbrev pub written : External → Data → Bytes → Data
written ext d file = insert "Base64" (quoted (ext.base64_encode file)) d

-- The request with that body.
abbrev pub sent_back : External → Request → Data → Bytes → Request
sent_back ext req d file = record req { body = body_after_scanning ext (encoded_file d) file }

module _ (ext : External) (req : Request) (d : Data) (file : Bytes)
    (no_form : starts_with (get ext.canonical req.header "Content-Type") "multipart/" ≡ false)
    (json : starts_with (get ext.canonical req.header "Content-Type") "application/json" ≡ true)
    (json_round : (key : String)
      → lookup key (ext.json_decode (ext.json_encode (written ext d file)))
        ≡ lookup key (written ext d file))
    (prints : ext.sprint (some (quoted (ext.base64_encode file))) ≡ ext.base64_encode file)
    (base64_round : ext.base64_decode (ext.base64_encode file) ≡ file) where
  abbrev decoded : Data
  decoded = ext.json_decode (ext.json_encode (written ext d file))

  decoded-file : lookup "Base64" decoded ≡ some (quoted (ext.base64_encode file))
  decoded-file =
      json_round "Base64" ∙ lookup-insert "Base64" "Base64" (quoted (ext.base64_encode file)) d

  decoded-other : (key : String) → "Base64" == key ≡ false → lookup key decoded ≡ lookup key d
  decoded-other key other =
      json_round key
      ∙ lookup-insert "Base64" key (quoted (ext.base64_encode file)) d
      ∙ ap (λ b. if b then some (quoted (ext.base64_encode file)) else lookup key d) other

  read_again : get_content_type ext (sent_back ext req d file) ≡ encoded_file decoded
  unfolding get_content_type body_after_scanning
  read_again = rw (no_form, json, decoded-file) refl

  -- For a JSON body, where the data that are written back are decoded as they were encoded, the base64
  -- text prints as itself, and base64 is inverted for the file, a reader of the request that is sent back
  -- extracts that file, and finds the other fields as they were.
  pub body_after_scanning-encoded :
      (d' : Data) × (get_content_type ext (sent_back ext req d file) ≡ encoded_file d')
      × (get_file_from_request ext (encoded_file d') ≡ file)
      × ((key : String) → "Base64" == key ≡ false → lookup key d' ≡ lookup key d)
  unfolding get_file_from_request
  body_after_scanning-encoded = (
    decoded,
    read_again,
    ap (λ o. ext.base64_decode (ext.sprint o)) decoded-file
        ∙ ap ext.base64_decode prints
        ∙ base64_round,
    decoded-other,
  )
