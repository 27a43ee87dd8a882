-- ===== src/Mock/Committer.antt =====
-- src/mock.rs: MockCommitter, which signs with a key held in memory.
use proof_of_context_impl.Prelude.{String, ◌++◌}
use proof_of_context_impl.Prelude.Bytes.{Bytes, text}
use proof_of_context_impl.Prelude.Word.{le_bytes}
use proof_of_context_impl.Crypto.{Crypto}
use proof_of_context_impl.Error.{PocError, Result, ok}
use proof_of_context_impl.Anchor.{TripleAnchor}
use proof_of_context_impl.Attestation.{mock_software}
use proof_of_context_impl.Context.{Hash32, ExecutionContextRoot, merkle_root}
use proof_of_context_impl.Commitment.{FreshnessCommitment, ContextCommitter}

pub record MockCommitter : Type 0 where
  pub signing_key : Bytes
  pub identity : String

-- MockCommitter::new
abbrev new_committer : Bytes → String → MockCommitter
new_committer signing_key identity = record { signing_key = signing_key; identity = identity }

-- MockCommitter::verifying_key
abbrev pub verifying_key : Crypto → MockCommitter → Bytes
verifying_key crypto m = crypto.verifying_key m.signing_key

-- The digest is written out here a second time, apart from FreshnessCommitment::signing_digest.
unfoldable pub commit :
    Crypto
    → MockCommitter
    → ExecutionContextRoot
    → Hash32
    → TripleAnchor
    → Result PocError FreshnessCommitment
commit crypto m root output_hash anchor =
    let context_root = merkle_root crypto root in
    let digest = crypto.sha256 (
      context_root
      ++ (le_bytes 8 anchor.block_height
          ++ (le_bytes 16 anchor.tee_timestamp
              ++ (le_bytes 8 anchor.drand_round ++ output_hash)))) in
    let sig_bytes = crypto.sign m.signing_key digest in
    let pk_bytes = crypto.verifying_key m.signing_key in
    ok (record {
      context_root = context_root;
      anchor = anchor;
      output_hash = output_hash;
      signature = sig_bytes;
      public_key = pk_bytes;
      attestation_chain = record {
        payload = text "mock-software-attestation";
        vendor = mock_software;
      };
    })

-- impl ContextCommitter for MockCommitter
abbrev pub context_committer : Crypto → MockCommitter → ContextCommitter
context_committer crypto m = record {
  commit = λ root output_hash anchor. commit crypto m root output_hash anchor;
  identity = m.identity;
}
