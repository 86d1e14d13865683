-- ===== src/Lib.antt =====
-- ICAPeg, an ICAP server: a proxy hands it HTTP requests (REQMOD) and responses (RESPMOD), a
-- configured service looks at the file in their body, and the answer is the message, a block page, or
-- "no modification". The library models the server's own logic, from the arrival of an ICAP request to
-- the calls on its response writer.
--
-- Parts, and the files that model them:
--   consts/consts.go                              Consts
--   http-message/httpMessage.go                   Http (HttpMsg; the fields of messages that are read)
--   readValues/                                   Settings (read_values_int .., is_sec_exists)
--   config/config.go                              Config (Init as init, with a function for each loop)
--   service/services-utilities/extension.go       Extension (InitExtsArr as init_exts_arr)
--   service/services-utilities/ContentTypes/      ContentTypes, FormPart
--   .../general-functions/general-functions.go    GeneralFunc: Files (the body and its type), Pages (block
--                                                 pages), Messages (the message that is returned),
--                                                 Extensions (CheckTheExtension), Headers (what is logged)
--   service/service.go                            Service.Dispatch
--   service/services/echo, clhashlookup, clamav   Service.Echo, Service.Hashlookup, Service.Clamav, each with
--                                                 Config; Processing is cut at its stages into functions
--   server/http-server/                           HtmlMessage (the endpoint of the block page)
--   api/icap-request.go, api/icap.go              Api.Handler (the state), Api.Metadata
--                                                 (generateICAPReqMetaData), Api.Initialization
--                                                 (RequestInitialization), Api.Responding
--                                                 (RespAndReqMods), Api.Serving (RequestProcessing,
--                                                 ToICAPEGServe, OPTIONS), Api.Logged (allHeaders and
--                                                 the maps of logged headers)
--
-- How they interact: the handler asks Service.Dispatch for the service of the configured vendor and
-- gives it the pair of HTTP messages. The services and GeneralFunc share that pair by pointers; it is the
-- state of the monad of Exchange, and the handler takes it back when the service returns. What the
-- handler does to the connection is a log of calls (Handler.Written). A panic, a nil dereference and
-- os.Exit are the outcome `panicked` (Prelude.Outcome); errors are values, as in the source. Integers
-- of the configuration are ℤ (Prelude.Int), durations wrap at 64 bits; lengths and statuses are ℕ.
--
-- RespAndReqMods calls itself after 100 Continue. The model counts the calls that are left, and starts
-- with two: the second call has the whole body, for which no service returns 100. What would follow where
-- no call is left is a parameter of call_mods, and resp_and_req_mods puts a panic there.
--
-- The zero request, which a handler makes where a response came without its request, has no URL, no
-- header map and no body (is_zero); what needs one of them panics (the_built_request).
--
-- Parameters: the libraries that are called (External: hashing, gzip, base64, JSON, multipart,
-- templates, file types, the ClamAV daemon, the lookup service), viper and the environment (Source), the
-- time, the body that the client sends after 100, what WriteHeader leaves of a body, and whether
-- http.NewRequest accepts a method and a URL. Nothing is assumed of them but what a theorem names.
--
-- Not modelled: icap/ and icap-client/ (copies of libraries; calls of the first are parameters), logger,
-- server/server.go and main.go (input and output), GetDecodedImage (unused). The text that
-- generateICAPReqMetaData draws is an argument of the handler, and the maps of Api.Logged are built beside
-- its state, which no answer reads them from. The goroutine of shadow mode is run after
-- the answer, and the configurations are loaded in one order of the map.
--
-- Specifications and interfaces: Service.Policy has the table of what a service promises of a RESPMOD
-- file (policy) and what it means for a reply to carry it out (Implements); its children follow each
-- service to it. Exchange.Ensures and Exchange.Returns have the rules by which a call on the messages is
-- shown to keep a property of its value, and to return at all; Service.Status and Service.Returning apply
-- them, and Api.Responding.Returning does the same for the handler. GeneralFunc.Kinds and Service.Kinds
-- follow the kind of the message (request or response) through the services with the same rules.
pub mod Prelude
pub mod Consts
pub mod Text
pub mod Header
pub mod HtmlMessage
pub mod FormPart
pub mod Http
pub mod External
pub mod Extension
pub mod Settings
pub mod ContentTypes
pub mod Exchange
pub mod GeneralFunc
pub mod Config
pub mod Service
pub mod Api
mod Tests
