-- ===== src/Mock.antt =====
-- src/mock.rs: the software backend. The committer, the verifier, the oracle and the gate.
pub mod Committer
pub mod Verifier
pub mod Oracle
pub mod Gate
pub mod Flow
mod Tests
