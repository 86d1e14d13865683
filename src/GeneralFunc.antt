-- ===== src/GeneralFunc.antt =====
-- service/services-utilities/general-functions/general-functions.go: what the services share.
pub mod Kinds
pub mod Files
pub mod Messages
pub mod Pages
pub mod Headers
pub mod Extensions
pub mod Returning
