-- ===== src/Mock/Verifier/Roundtrip.antt =====
-- src/mock.rs: what the verifier accepts, and that it accepts what the committer signs.
use proof_of_context_impl.Prelude.{◌≡◌, ◌↔◌, subst, true, arith}
use proof_of_context_impl.Crypto.{Crypto, IsCrypto}
use proof_of_context_impl.Error.{ok, ok-injective}
use proof_of_context_impl.Anchor.{TripleAnchor}
use proof_of_context_impl.Attestation.{AttestationVendor, mock_software, is_mock_software}
use proof_of_context_impl.Context.{Hash32, ExecutionContextRoot}
use proof_of_context_impl.Commitment.{FreshnessCommitment, signing_preimage, signing_digest}
use proof_of_context_impl.Mock.Committer.{MockCommitter, commit}
use proof_of_context_impl.Mock.Verifier.{verify, verify_attestation}

is_mock_software_iff : (v : AttestationVendor) → (is_mock_software v ≡ true) ↔ (v ≡ mock_software)
is_mock_software_iff v = (λ h. ground arith, λ h. ground arith)

-- The verifier accepts a commitment exactly when its public key parses, the signature verifies under
-- that key over the digest of the commitment's own root, clocks and output, and the attestation is
-- tagged as software.
pub verify_iff :
    (crypto : Crypto) (c : FreshnessCommitment)
    → (verify crypto c ≡ ok tt)
      ↔ (crypto.key_ok c.public_key ≡ true)
        × (crypto.verify_ok c.public_key (signing_digest crypto c) c.signature ≡ true)
        × (c.attestation_chain.vendor ≡ mock_software)
unfolding verify verify_attestation
verify_iff crypto c =
    let vendor = is_mock_software_iff c.attestation_chain.vendor in
    (λ h. ground (arith, vendor), λ h. ground (arith, vendor))

-- Where signatures verify under their own key, the verifier accepts whatever the committer makes: the
-- digest that the committer writes out is the one that the verifier recomputes.
pub commit-verify :
    (crypto : Crypto) (m : MockCommitter) (root : ExecutionContextRoot) (out : Hash32)
    (a : TripleAnchor) (c : FreshnessCommitment)
    → IsCrypto crypto
    → commit crypto m root out a ≡ ok c
    → verify crypto c ≡ ok tt
unfolding commit signing_digest signing_preimage verify verify_attestation
commit-verify crypto m root out a c laws h =
    subst (λ x. verify crypto x ≡ ok tt) (ok-injective h)
      (rw (laws.key_valid m.signing_key, laws.sign_valid m.signing_key _))
