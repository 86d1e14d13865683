-- ===== src/ContentTypes/Laws.antt =====
-- What a request's body becomes when its file is extracted and written back.
use icapegclh.Prelude.{
  ◌≡◌, ◌≢◌, refl, List, [], ◌∷◌, map, inl, inr, arith, ◌==◌, eq_iff, eq_refl, Bool-cases,
}
use icapegclh.FormPart.{FormPart}
use icapegclh.Http.{Request}
use icapegclh.External.{External}
use icapegclh.ContentTypes.{
  first_file, replace_part, part_write, parsing_request, get_file_from_request, body_after_scanning,
  creating_multipart_form, multipart,
}

-- Writing the extracted file back leaves every part as it was.
replace_part-first_file :
    (ps : List FormPart) → (first_file ps).file_name ≢ "" → replace_part (first_file ps) ps ≡ ps
unfolding replace_part first_file
replace_part-first_file [] h = refl
replace_part-first_file (p ∷ ps) h = elim (Bool-cases (p.file_name == "")) [
  | inr named ↦ rw named (ground (arith, eq_refl p.file_name, eq_refl p.form_name))
  | inl plain ↦ rw plain (
      ground (
        arith,
        replace_part-first_file ps,
        eq_iff p.file_name "",
        eq_iff p.file_name (first_file ps).file_name,
        h,
      ))
]

module _ (ext : External) where
  -- A form that has a file, written back with that file unchanged, holds all the parts that were
  -- read, in their order.
  pub body_after_scanning-multipart :
      (req : Request)
      → (parsing_request ext req).the_file.file_name ≢ ""
      → body_after_scanning ext
          (multipart (parsing_request ext req))
          (get_file_from_request ext (multipart (parsing_request ext req)))
        ≡ ext.write_form
            (parsing_request ext req).boundary
            (map part_write (parsing_request ext req).form_parts)
  unfolding body_after_scanning get_file_from_request parsing_request creating_multipart_form
  body_after_scanning-multipart req h = rw (replace_part-first_file _ h)
