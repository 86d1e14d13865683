-- ===== src/Api.antt =====
-- api: how an ICAP request is answered.
pub mod Handler
pub mod Metadata
pub mod Initialization
pub mod Responding
pub mod Logged
pub mod Serving
