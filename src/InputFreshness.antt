-- ===== src/InputFreshness.antt =====
-- src/input_freshness.rs: signed input attestations, the witness they form, and the oracle over
-- the witnesses presented.
pub mod Attestation
pub mod Timestamp
pub mod Witness
pub mod Oracle
pub mod Accept
pub mod Manifest
pub mod Stalest
pub mod Earlier
mod Tests
