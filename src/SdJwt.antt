-- ===== src/SdJwt.antt =====
-- Selective-disclosure tokens (src/sd-jwt), module by module.
pub mod Types
pub mod Decode
pub mod Disclose
pub mod Verify
pub mod Values
pub mod Laws
pub mod Tests
