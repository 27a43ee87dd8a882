-- ===== src/Backing/Signed/Digest.antt =====
-- src/backing.rs: the digest that a validator signs leaves no field open.
use proof_of_context_impl.Prelude.{◌<◌, ◌%◌, ◌≡◌, ◌⊎◌, inl, inr, ◌++◌, arith, length, append_split}
use proof_of_context_impl.Prelude.Bytes.{Bytes}
use proof_of_context_impl.Prelude.Word.{u32_mod, u64_mod, le_bytes, le_bytes-injective, word_split}
use proof_of_context_impl.Crypto.{Crypto, Collision}
use proof_of_context_impl.Context.Binding.{digest_cases}
use proof_of_context_impl.Backing.Set.{BackingEntry}
use proof_of_context_impl.Backing.Signed.{prefixed, digest_preimage, signing_digest}

-- Strings of at most u32::MAX bytes, and a u64 time.
pub record IsEntry (e : BackingEntry) : Type 0 where
  pub source : length e.source_id < u32_mod
  pub class : length e.class < u32_mod
  pub time : e.attested_at_secs < u64_mod

-- A string behind its length ends where its length says.
pub prefixed_split :
    (s t : Bytes) {us vs : Bytes}
    → length s < u32_mod
    → length t < u32_mod
    → prefixed s ++ us ≡ prefixed t ++ vs
    → (s ≡ t) × (us ≡ vs)
unfolding prefixed le_bytes
prefixed_split s t {us} {vs} hs ht h =
    let (prefix, rest) = word_split 4 (length s % u32_mod) (length t % u32_mod) h in
    let same : length s % u32_mod ≡ length t % u32_mod =
      le_bytes-injective 4 (length s % u32_mod) (length t % u32_mod) (omega arith) (omega arith)
        prefix in
    append_split s t (omega arith) rest

-- Shifting bytes between source id, class and content changes the preimage: two entries, with the
-- content each was validated against, have one preimage only if they are the same.
pub digest_preimage-injective :
    (e f : BackingEntry) (x y : Bytes)
    → IsEntry e
    → IsEntry f
    → digest_preimage e x ≡ digest_preimage f y
    → (e ≡ f) × (x ≡ y)
unfolding digest_preimage
digest_preimage-injective e f x y ve vf h =
    let (e₁, h₁) = prefixed_split e.source_id f.source_id ve.source vf.source h in
    let (b₂, h₂) = word_split 8 e.attested_at_secs f.attested_at_secs h₁ in
    let (e₃, e₄) = prefixed_split e.class f.class ve.class vf.class h₂ in
    let e₂ = le_bytes-injective 8 e.attested_at_secs f.attested_at_secs ve.time vf.time b₂ in
    (λ i. record { source_id = e₁ i; attested_at_secs = e₂ i; class = e₃ i }, e₄)

-- One digest for two entries means the same source, time, class and content, or a collision of
-- SHA-256.
pub entry_digest-binds :
    (crypto : Crypto) (e f : BackingEntry) (x y : Bytes)
    → IsEntry e
    → IsEntry f
    → signing_digest crypto e x ≡ signing_digest crypto f y
    → ((e ≡ f) × (x ≡ y)) ⊎ Collision crypto
unfolding signing_digest
entry_digest-binds crypto e f x y ve vf h =
    elim (digest_cases crypto (digest_preimage e x) (digest_preimage f y) h) [
      | inl p ↦ inl (digest_preimage-injective e f x y ve vf p)
      | inr c ↦ inr c
    ]
