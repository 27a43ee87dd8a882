-- ===== src/Commitment/Binding.antt =====
-- src/commitment.rs: the signing digest binds root, clocks and output.
use proof_of_context_impl.Prelude.{◌≡◌, sym, ◌∙◌, ◌⊎◌, inl, inr, append_split}
use proof_of_context_impl.Prelude.Bytes.{Bytes, IsArray}
use proof_of_context_impl.Prelude.Word.{le_bytes-injective, word_split}
use proof_of_context_impl.Crypto.{Crypto, Collision, CollisionAmong}
use proof_of_context_impl.Anchor.{TripleAnchor, IsAnchor}
use proof_of_context_impl.Context.{Hash32}
use proof_of_context_impl.Context.Binding.{digest_cases, equal_or_collide}
use proof_of_context_impl.Commitment.{FreshnessCommitment, signing_preimage, signing_digest}

pub record IsCommitment (c : FreshnessCommitment) : Type 0 where
  pub root : IsArray 32 c.context_root
  pub clocks : IsAnchor c.anchor
  pub output : IsArray 32 c.output_hash

pub signing_preimage-injective :
    (r s : Hash32) (a b : TripleAnchor) (x y : Hash32)
    → IsArray 32 r
    → IsArray 32 s
    → IsAnchor a
    → IsAnchor b
    → signing_preimage r a x ≡ signing_preimage s b y
    → (r ≡ s) × (a ≡ b) × (x ≡ y)
unfolding signing_preimage
signing_preimage-injective r s a b x y vr vs va vb h =
    let (e₁, h₁) = append_split r s (vr.size ∙ sym vs.size) h in
    let (b₂, h₂) = word_split 8 a.block_height b.block_height h₁ in
    let (b₃, h₃) = word_split 16 a.tee_timestamp b.tee_timestamp h₂ in
    let (b₄, e₅) = word_split 8 a.drand_round b.drand_round h₃ in
    let e₂ = le_bytes-injective 8 a.block_height b.block_height va.block_range vb.block_range b₂ in
    let e₃ = le_bytes-injective 16 a.tee_timestamp b.tee_timestamp va.tee_range vb.tee_range b₃ in
    let e₄ = le_bytes-injective 8 a.drand_round b.drand_round va.drand_range vb.drand_range b₄ in
    (e₁, λ i. record { block_height = e₂ i; tee_timestamp = e₃ i; drand_round = e₄ i }, e₅)

-- Two well-formed commitments with one signing digest have the same context root, the same three
-- clocks and the same output hash, or their preimages are a collision of SHA-256.
pub signing_digest-binds :
    (crypto : Crypto) (c d : FreshnessCommitment)
    → IsCommitment c
    → IsCommitment d
    → signing_digest crypto c ≡ signing_digest crypto d
    → ((c.context_root ≡ d.context_root) × (c.anchor ≡ d.anchor) × (c.output_hash ≡ d.output_hash))
      ⊎ Collision crypto
unfolding signing_digest
signing_digest-binds crypto c d v w h =
    elim (digest_cases crypto (signing_preimage c.context_root c.anchor c.output_hash)
      (signing_preimage d.context_root d.anchor d.output_hash) h) [
        | inl e ↦ inl (
            signing_preimage-injective c.context_root d.context_root c.anchor d.anchor c.output_hash
              d.output_hash v.root w.root v.clocks w.clocks e)
        | inr k ↦ inr k
      ]

-- The same, where the collision is one of inputs that are named.
pub commitments_or_collide :
    (crypto : Crypto) (Hashed : Bytes → Type 0) (c d : FreshnessCommitment)
    → IsCommitment c
    → IsCommitment d
    → Hashed (signing_preimage c.context_root c.anchor c.output_hash)
    → Hashed (signing_preimage d.context_root d.anchor d.output_hash)
    → signing_digest crypto c ≡ signing_digest crypto d
    → ((c.context_root ≡ d.context_root) × (c.anchor ≡ d.anchor) × (c.output_hash ≡ d.output_hash))
      ⊎ CollisionAmong crypto Hashed
unfolding signing_digest
commitments_or_collide crypto Hashed c d v w p q h = elim (equal_or_collide crypto Hashed p q h) [
  | inl e ↦ inl (
      signing_preimage-injective c.context_root d.context_root c.anchor d.anchor c.output_hash
        d.output_hash v.root w.root v.clocks w.clocks e)
  | inr k ↦ inr k
]
