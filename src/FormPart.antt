-- ===== src/FormPart.antt =====
-- service/services-utilities/ContentTypes/multipartForm.go: a part of a form, and what is written
-- for it. Bodies are lists of bytes.
use icapegclh.Prelude.{ℕ, String, List}

abbrev pub Bytes : Type 0
Bytes = List ℕ

pub record FormPart : Type 0 where
  pub form_name : String
  pub file_name : String
  pub content : Bytes

-- The calls of `multipart.Writer`: `WriteField`, and `CreateFormFile` with a copy of the content.
pub data FormWrite : Type 0 where
  write_field : String → Bytes → FormWrite
  write_file : String → String → Bytes → FormWrite
