-- ===== src/Context/Binding.antt =====
-- src/context.rs: a root binds the whole context, up to a collision of SHA-256.
use proof_of_context_impl.Prelude.{◌≡◌, ◌⊎◌, inl, inr}
use proof_of_context_impl.Prelude.Bytes.{Bytes, Bytes-discrete}
use proof_of_context_impl.Crypto.{Crypto, Collision, CollisionAmong}
use proof_of_context_impl.Context.{ExecutionContextRoot, preimage, merkle_root}
use proof_of_context_impl.Context.Encoding.{IsContext, preimage-injective}

-- Equal digests come from equal inputs or show a collision.
pub digest_cases :
    (crypto : Crypto) (a b : Bytes) → crypto.sha256 a ≡ crypto.sha256 b → (a ≡ b) ⊎ Collision crypto
digest_cases crypto a b h = elim (Bytes-discrete a b) [ yes e ↦ inl e | no n ↦ inr (a, b, n, h) ]

-- Two well-formed contexts with one root agree in every field, or the two preimages are a collision
-- of SHA-256: no field that affects the output is left out of the root.
pub merkle_root-binds :
    (crypto : Crypto) (r s : ExecutionContextRoot)
    → IsContext r
    → IsContext s
    → merkle_root crypto r ≡ merkle_root crypto s
    → (r ≡ s) ⊎ Collision crypto
unfolding merkle_root
merkle_root-binds crypto r s v w h = elim (digest_cases crypto (preimage r) (preimage s) h) [
  | inl e ↦ inl (preimage-injective r s v w e)
  | inr c ↦ inr c
]

-- The same, where the collision is one of inputs that are named.
module _ (crypto : Crypto) (Hashed : Bytes → Type 0) where
  pub equal_or_collide :
      {a b : Bytes}
      → Hashed a
      → Hashed b
      → crypto.sha256 a ≡ crypto.sha256 b
      → (a ≡ b) ⊎ CollisionAmong crypto Hashed
  equal_or_collide {a} {b} p q h = elim (Bytes-discrete a b) [
    | yes e ↦ inl e
    | no n ↦ inr (a, b, p, q, n, h)
  ]

  pub contexts_or_collide :
      (r s : ExecutionContextRoot)
      → IsContext r
      → IsContext s
      → Hashed (preimage r)
      → Hashed (preimage s)
      → merkle_root crypto r ≡ merkle_root crypto s
      → (r ≡ s) ⊎ CollisionAmong crypto Hashed
  unfolding merkle_root
  contexts_or_collide r s v w p q h = elim (equal_or_collide p q h) [
    | inl e ↦ inl (preimage-injective r s v w e)
    | inr c ↦ inr c
  ]
