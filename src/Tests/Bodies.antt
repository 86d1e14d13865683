-- ===== src/Tests/Bodies.antt =====
-- A JSON body with a file.
use text.Mathlib.Text.{starts_with}
use icapegclh.Prelude.{String, true, false, ◌≡◌, refl, ◌==◌, Option, some, [], ◌∷◌}
use icapegclh.FormPart.{Bytes}
use icapegclh.Header.{get, lookup}
use icapegclh.Http.{Request}
use icapegclh.External.{External, Data, Json, quoted}
use icapegclh.ContentTypes.{encoded_file, get_content_type, get_file_from_request}
use icapegclh.ContentTypes.Encoded.{written, sent_back, body_after_scanning-encoded}
use icapegclh.Tests.{libraries, page_request}

abbrev posted : Request
posted = record page_request { header = ("Content-Type", "application/json" ∷ []) ∷ [] }

abbrev fields : Data
fields = ("name", quoted (b'a' ∷ [])) ∷ ("Base64", quoted (b'Z' ∷ [])) ∷ []

abbrev scanned : Bytes
scanned = b'o' ∷ b'k' ∷ []

abbrev printed : Option Json → Bytes
printed (some (quoted b)) = b
printed _ = []

-- A decoder that knows the data that are sent back.
abbrev coding : External
coding = record libraries { json_decode = λ _. written libraries fields scanned; sprint = printed }

is_json : starts_with (get coding.canonical posted.header "Content-Type") "application/json" ≡ true
unfolding get lookup
is_json = refl

is_no_form : starts_with (get coding.canonical posted.header "Content-Type") "multipart/" ≡ false
unfolding get lookup
is_no_form = refl

same_data :
    (key : String)
    → lookup key (coding.json_decode (coding.json_encode (written coding fields scanned)))
      ≡ lookup key (written coding fields scanned)
same_data key = refl

body_after_scanning-encoded_example :
    (d' : Data) × (get_content_type coding (sent_back coding posted fields scanned)
      ≡ encoded_file d')
    × (get_file_from_request coding (encoded_file d') ≡ scanned)
    × ((key : String) → "Base64" == key ≡ false → lookup key d' ≡ lookup key fields)
body_after_scanning-encoded_example =
    body_after_scanning-encoded coding posted fields scanned is_no_form is_json same_data refl refl
