-- ===== src/Context/Tests.antt =====
-- src/context.rs, src/commitment.rs: the theorems at a sample context and commitment.
use proof_of_context_impl.Prelude.{◌≡◌, ◌⊎◌, refl, arith, [], ◌∷◌}
use proof_of_context_impl.Crypto.{Collision}
use proof_of_context_impl.Fixtures.{
  crypto, pad-IsArray, root, root-IsContext, lookalike, lookalike-IsContext, same_root, at_block,
  anchor, anchor-IsAnchor, out, commitment,
}
use proof_of_context_impl.Context.{merkle_root, preimage}
use proof_of_context_impl.Context.Binding.{merkle_root-binds}
use proof_of_context_impl.Commitment.{FreshnessCommitment, signing_digest, signing_preimage}
use proof_of_context_impl.Commitment.Binding.{IsCommitment, signing_digest-binds}

merkle_root-binds_example : (lookalike ≡ root) ⊎ Collision crypto
merkle_root-binds_example =
    merkle_root-binds crypto lookalike root lookalike-IsContext root-IsContext same_root

-- The same context at another block.
abbrev later : FreshnessCommitment
later = record commitment { anchor = at_block 1100 }

later-IsCommitment : IsCommitment later
unfolding merkle_root
later-IsCommitment = record {
  root = pad-IsArray 32 (preimage root);
  clocks = record { block_range = omega arith; tee_range = omega arith; drand_range = omega arith };
  output = pad-IsArray 32 (9 ∷ []);
}

same_digest : signing_digest crypto commitment ≡ signing_digest crypto later
unfolding signing_digest signing_preimage merkle_root preimage
same_digest = refl

commitment-IsCommitment : IsCommitment commitment
unfolding merkle_root
commitment-IsCommitment = record {
  root = pad-IsArray 32 (preimage root);
  clocks = anchor-IsAnchor;
  output = pad-IsArray 32 (9 ∷ []);
}

signing_digest-binds_example :
    ((merkle_root crypto root ≡ merkle_root crypto root) × (anchor ≡ at_block 1100) × (out ≡ out))
    ⊎ Collision crypto
signing_digest-binds_example =
    signing_digest-binds crypto commitment later commitment-IsCommitment later-IsCommitment
      same_digest
