-- ===== src/Commitment.antt =====
-- src/commitment.rs: the signed commitment, its digest, and the two interfaces.
pub mod Binding
use proof_of_context_impl.Prelude.{String, ◌++◌}
use proof_of_context_impl.Prelude.Bytes.{Bytes}
use proof_of_context_impl.Prelude.Word.{le_bytes}
use proof_of_context_impl.Crypto.{Crypto}
use proof_of_context_impl.Error.{PocError, Result}
use proof_of_context_impl.Anchor.{TripleAnchor}
use proof_of_context_impl.Attestation.{AttestationChain}
use proof_of_context_impl.Context.{Hash32, ExecutionContextRoot}

pub record FreshnessCommitment : Type 0 where
  pub context_root : Hash32
  pub anchor : TripleAnchor
  pub output_hash : Hash32
  pub signature : Bytes
  pub public_key : Bytes
  pub attestation_chain : AttestationChain

-- context_root ‖ block_height (u64) ‖ tee_timestamp (u128) ‖ drand_round (u64) ‖ output_hash
unfoldable pub signing_preimage : Hash32 → TripleAnchor → Hash32 → Bytes
signing_preimage root a out =
    root
    ++ (le_bytes 8 a.block_height
        ++ (le_bytes 16 a.tee_timestamp ++ (le_bytes 8 a.drand_round ++ out)))

unfoldable pub signing_digest : Crypto → FreshnessCommitment → Hash32
signing_digest crypto c = crypto.sha256 (signing_preimage c.context_root c.anchor c.output_hash)

pub record ContextCommitter : Type 0 where
  pub commit : ExecutionContextRoot → Hash32 → TripleAnchor → Result PocError FreshnessCommitment
  pub identity : String

pub record CommitmentVerifier : Type 0 where
  pub verify : FreshnessCommitment → Result PocError (Unit {0})
