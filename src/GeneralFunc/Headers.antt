-- ===== src/GeneralFunc/Headers.antt =====
-- general-functions.go: the headers of a message, as they are logged.
pub mod Logged
use icapegclh.Prelude.{
  ℕ, zero, suc, String, ◌<>◌, List, [], ◌∷◌, nat_eq, ◌==◌, length, if◌then◌else◌,
}
use icapegclh.Consts.{icap_mode_req}
use icapegclh.Text.{head_or}
use icapegclh.Header.{Header}
use icapegclh.Exchange.{M, ◌>>=◌, pure, the_request, the_response}

-- `for i := 0; i < len(value); i++ { values += value[0]; … }`, with the rounds that are left.
unfoldable pub log_loop : String → ℕ → String → String
log_loop first zero values = values
log_loop first (suc n) values =
    log_loop first n (if nat_eq n 0 then values <> first else (values <> first) <> ", ")

unfoldable pub log_values : List String → String
unfolding log_loop
log_values value = log_loop (head_or "" value) (length value) ""

unfoldable pub log_header : Header → List (String × String)
log_header [] = []
log_header ((key, value) ∷ h) = (key, log_values value) ∷ log_header h

unfoldable pub log_http_msg_headers : String → M (List (String × String))
log_http_msg_headers method_name =
    if method_name == icap_mode_req
    then (do r ← the_request; pure (log_header r.header))
    else (do r ← the_response; pure (log_header r.header))
