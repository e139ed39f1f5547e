-- ===== src/SdJwt/Laws.antt =====
-- What `disclose` and `verify` guarantee, and when they fail.
pub mod Keep
pub mod Disclosed
pub mod Verified
pub mod Paths
