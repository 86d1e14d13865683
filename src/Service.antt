-- ===== src/Service.antt =====
-- service: the services behind one interface.
pub mod Reply
pub mod Echo
pub mod Hashlookup
pub mod Clamav
pub mod Dispatch
pub mod Kinds
pub mod Status
pub mod Final
pub mod Verdicts
pub mod Scanned
pub mod Clean
pub mod Passing
pub mod Returning
pub mod Policy
pub mod Timeouts
pub mod Fitting
