-- ===== src/Mock/Verifier.antt =====
-- src/mock.rs: MockVerifier, the signature check and the acceptance of software attestations.
pub mod Roundtrip
use proof_of_context_impl.Prelude.{Bool, if◌then◌else◌, not}
use proof_of_context_impl.Crypto.{Crypto}
use proof_of_context_impl.Error.{
  PocError, invalid_signature, invalid_attestation, Result, ok, err, ◌>>◌,
}
use proof_of_context_impl.Attestation.{AttestationChain, AttestationVerifier, is_mock_software}
use proof_of_context_impl.Commitment.{FreshnessCommitment, CommitmentVerifier, signing_digest}

-- impl AttestationVerifier for MockVerifier
unfoldable pub verify_attestation : AttestationChain → Result PocError (Unit {0})
verify_attestation chain = if is_mock_software chain.vendor then ok tt else err invalid_attestation

-- impl CommitmentVerifier for MockVerifier
unfoldable pub verify : Crypto → FreshnessCommitment → Result PocError (Unit {0})
verify crypto commitment =
    let digest = signing_digest crypto commitment in
    if not (crypto.key_ok commitment.public_key)
    then err invalid_signature
    else if not (crypto.verify_ok commitment.public_key digest commitment.signature)
    then err invalid_signature
    else verify_attestation commitment.attestation_chain

abbrev pub mock_verifier : Crypto → CommitmentVerifier
mock_verifier crypto = record { verify = λ commitment. verify crypto commitment }
