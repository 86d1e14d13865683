-- ===== src/GeneralFunc/Messages.antt =====
-- general-functions.go: the message that is returned when the file has been dealt with.
use icapegclh.Prelude.{
  ℕ, String, Bool, true, false, Option, none, some, [], nat_eq, ◌==◌, length, if◌then◌else◌,
}
use icapegclh.Consts.{icap_mode_req, icap_mode_resp, no_modification_status_code, content_length}
use icapegclh.Text.{itoa}
use icapegclh.FormPart.{Bytes}
use icapegclh.Header.{set}
use icapegclh.Http.{Message, nil_message, request_message, response_message, Request, Response, Url}
use icapegclh.External.{External}
use icapegclh.ContentTypes.{ContentType, regular}
use icapegclh.Exchange.{
  M, ◌>>=◌, ◌>>◌, pure, lift, the_built_request, the_response, put_request, put_response,
}
use icapegclh.GeneralFunc.Files.{compress_file_gzip, preparing_file_after_scanning}

-- `if URL.Scheme == "" { URL.Opaque = URL.Host }`
abbrev opaque_host : Url → Url
opaque_host u = if u.scheme == "" then record u { opaque_part = u.host } else u

-- `msg.Body = …` on a result. A shared request already holds these bytes, and a request that
-- `ReqModErrPage` made is not shared; a response is `f.httpMsg.Response`.
unfoldable pub set_message_body : Message → Bytes → M Message
set_message_body (request_message r) body = pure (request_message (record r { body = body }))
set_message_body (response_message r) body = do
  let r' = record r { body = body }
  put_response r'
  pure (response_message r')
set_message_body m body = pure nil_message

-- The pair of a status 204: the callers test it for `nil, nil`. A message is nil only for a method that
-- is neither REQMOD nor RESPMOD, and there an empty file is a buffer that nothing was written to, whose
-- slice is nil.
unfoldable pub pair_of : Message → Bytes → Option (Bytes × Message)
pair_of nil_message [] = none
pair_of m file = some (file, m)

module _ (ext : External) where
  abbrev pub with_file_request : Bytes → Request → Request
  with_file_request file r = record r {
    header = set ext.canonical content_length (itoa (length file)) r.header;
    body = file;
  }

  abbrev pub with_file_response : Bytes → Response → Response
  with_file_response file r = record r {
    header = set ext.canonical content_length (itoa (length file)) r.header;
    body = file;
  }

  unfoldable pub returning_http_message_with_file : String → Bytes → M Message
  returning_http_message_with_file method_name file =
      if method_name == icap_mode_req
      then (do
        r ← the_built_request
        let r' = record (with_file_request file r) { url = opaque_host r.url }
        put_request r'
        pure (request_message r'))
      else if method_name == icap_mode_resp
      then (do
        r ← the_response
        let r' = with_file_response file r
        put_response r'
        pure (response_message r'))
      else pure nil_message

  unfoldable pub returning_http_message : String → Bytes → M Message
  returning_http_message method_name file =
      if method_name == icap_mode_req
      then (do
        r ← the_built_request
        let r' = with_file_request file r
        put_request r'
        pure (request_message r'))
      else if method_name == icap_mode_resp
      then (do
        r ← the_response
        let r' = with_file_response file r
        put_response r'
        pure (response_message r'))
      else pure nil_message

  -- `isGzip` and a compression that fails.
  gzip_fails : Bool → Bytes → Bool
  gzip_fails is_gzip file =
      if is_gzip then elim (compress_file_gzip ext file) [ none ↦ true | some _ ↦ false ] else false

  -- `none` is the pair `nil, nil`. What is compressed is overwritten in every case.
  unfoldable pub if_icap_status_is_204 :
      String → ℕ → Bytes → Bool → Option ContentType → Message → M (Option (Bytes × Message))
  unfolding gzip_fails
  if_icap_status_is_204 method_name status file is_gzip req_content_type http_message =
      if gzip_fails is_gzip file then pure none else (do
        prep ← lift (preparing_file_after_scanning ext file req_content_type method_name)
        if nat_eq status no_modification_status_code
            then (do m ← returning_http_message method_name prep; pure (pair_of m prep))
            else pure (some (prep, http_message)))

  unfoldable pub if_status_is_204_with_file :
      String → ℕ → Bytes → Bool → Option ContentType → Message → Bool → M (Option (Bytes × Message))
  unfolding gzip_fails
  if_status_is_204_with_file method_name status file is_gzip req_content_type http_message is_err =
      let plain = some (regular (record { buf = file; encoded = false })) in
      if gzip_fails is_gzip file then pure none else (do
        prep ← lift (
            preparing_file_after_scanning ext file (if is_err then plain else req_content_type)
              method_name)
        if nat_eq status no_modification_status_code
            then (do m ← returning_http_message_with_file method_name prep; pure (pair_of m prep))
            else pure (some (prep, http_message)))
