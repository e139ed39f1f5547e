-- ===== src/Credential.antt =====
-- src/credential: the issuance of a credential and its status attestation.
pub mod Grows
pub mod Parse
pub mod Obtain
pub mod Status
pub mod Select
pub mod Authorize
pub mod Access
pub mod Issuer
pub mod Tests
mod Authorized
