-- ===== src/Backing/Signed/Trust.antt =====
-- src/backing.rs: which signed entries a consumer accepts.
use proof_of_context_impl.Prelude.{◌≡◌, ◌↔◌, true, arith, ◌||◌}
use proof_of_context_impl.Prelude.Bytes.{Bytes, ◌==◌}
use proof_of_context_impl.Crypto.{Crypto, IsCrypto}
use proof_of_context_impl.SortedMap.Laws.{get-insert}
use proof_of_context_impl.Backing.Set.{BackingEntry}
use proof_of_context_impl.Backing.Signed.{
  SignedBackingEntry, TrustedValidators, with, contains, is_signature_valid, is_trusted, sign,
  signing_digest,
}

-- Adding a key to the trusted set adds that key and no other.
pub contains-with :
    (t : TrustedValidators) (k j : Bytes) → contains (with t k) j ≡ (j == k || contains t j)
unfolding contains with
contains-with t k j = ground (arith, get-insert k j tt t.keys)

-- An entry is trusted exactly when its validator key parses and is in the trusted set, and the
-- signature verifies under it over the digest of the entry's own claim and content.
pub is_trusted_iff :
    (crypto : Crypto) (t : TrustedValidators) (s : SignedBackingEntry)
    → (is_trusted crypto t s ≡ true)
      ↔ (crypto.key_ok s.validator_pubkey ≡ true)
        × (crypto.verify_ok s.validator_pubkey
              (signing_digest crypto s.entry s.content_hash)
              s.signature
            ≡ true)
        × (contains t s.validator_pubkey ≡ true)
unfolding is_trusted is_signature_valid
is_trusted_iff crypto t s = (λ h. ground arith, λ h. ground arith)

-- Where signatures verify under their own key, an entry that a validator signs is trusted exactly by
-- those who trust that validator's key.
pub sign-is_trusted :
    (crypto : Crypto) (t : TrustedValidators) (e : BackingEntry) (content key : Bytes)
    → IsCrypto crypto
    → is_trusted crypto t (sign crypto e content key) ≡ contains t (crypto.verifying_key key)
unfolding is_trusted is_signature_valid sign
sign-is_trusted crypto t e content key laws = rw (laws.key_valid key, laws.sign_valid key _)
