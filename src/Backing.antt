-- ===== src/Backing.antt =====
-- src/backing.rs: un-resettable source age. Backing sets, the age policy and its gate, and the
-- signed entries.
pub mod Oldest
pub mod Set
pub mod Gate
pub mod Age
pub mod Signed
mod Tests
