-- ===== src/Crypto.antt =====
-- What the program takes from the crates `sha2` and `ed25519-dalek`: parameters of the model.
use proof_of_context_impl.Prelude.{◌≡◌, ◌≢◌, Bool, true}
use proof_of_context_impl.Prelude.Bytes.{Bytes, IsArray}

pub record Crypto : Type 0 where
  -- `Sha256::digest`, also of the concatenation of what `update` was given
  pub sha256 : Bytes → Bytes
  -- `VerifyingKey::from_bytes(pk).is_ok()`
  pub key_ok : Bytes → Bool
  -- `vk.verify(message, signature).is_ok()`, arguments: key, message, signature
  pub verify_ok : Bytes → Bytes → Bytes → Bool
  -- `signing_key.verifying_key().to_bytes()`
  pub verifying_key : Bytes → Bytes
  -- `signing_key.sign(message).to_bytes()`, arguments: key, message
  pub sign : Bytes → Bytes → Bytes

-- The documented behaviour of the two crates that the theorems rely on.
pub record IsCrypto (c : Crypto) : Type 0 where
  pub digest_size : (m : Bytes) → IsArray 32 (c.sha256 m)
  pub key_valid : (k : Bytes) → c.key_ok (c.verifying_key k) ≡ true
  pub sign_valid : (k m : Bytes) → c.verify_ok (c.verifying_key k) m (c.sign k m) ≡ true

-- Two different inputs with one digest.
abbrev pub Collision : Crypto → Type 0
Collision c = (a : Bytes) × (b : Bytes) × (a ≢ b) × (c.sha256 a ≡ c.sha256 b)

-- The same among the inputs that a predicate names, such as those that one run of the program hashes.
abbrev pub CollisionAmong : Crypto → (Bytes → Type 0) → Type 0
CollisionAmong c Hashed =
    (a : Bytes) × (b : Bytes) × Hashed a × Hashed b × (a ≢ b) × (c.sha256 a ≡ c.sha256 b)
