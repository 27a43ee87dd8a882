-- ===== src/Reexecution/Cheats.antt =====
-- examples/eigencompute_freshness_receipt.rs: what re-execution and the gate find.
use proof_of_context_impl.Prelude.{
  ◌+◌, ◌<◌, ◌≡◌, ◌≢◌, refl, ap, sym, ◌∙◌, ◌↔◌, Bool, true, some, subst, arith, some-injective,
}
use proof_of_context_impl.Prelude.Bytes.{text, ==_iff}
use proof_of_context_impl.Crypto.{Crypto, IsCrypto}
use proof_of_context_impl.Error.{PocError, ok, err, invalid_attestation, ok-injective}
use proof_of_context_impl.Freshness.{FreshnessThresholds}
use proof_of_context_impl.Anchor.{TripleAnchor}
use proof_of_context_impl.Context.{Hash32, ExecutionContextRoot, merkle_root}
use proof_of_context_impl.Attestation.{AttestationChain, nvidia_h100}
use proof_of_context_impl.Commitment.{FreshnessCommitment, CommitmentVerifier, signing_digest}
use proof_of_context_impl.Settle.{clear}
use proof_of_context_impl.Mock.Committer.{MockCommitter, commit}
use proof_of_context_impl.Mock.Verifier.{verify, verify_attestation, mock_verifier}
use proof_of_context_impl.Mock.Verifier.Roundtrip.{verify_iff, commit-verify}
use proof_of_context_impl.Mock.Gate.{MockSettlementGate, verify_and_settle}
use proof_of_context_impl.Mock.Gate.Decision.{clears_iff}
use proof_of_context_impl.Reexecution.{
  MockEigenAiModel, AgentRequest, hash_output, infer, prompt_hash, build_root,
  reexecute_and_compare, forge_capacity_falsification,
}

not_software :
    verify_attestation (record { payload = text "mock-software-attestation"; vendor = nvidia_h100 })
    ≡ err invalid_attestation
unfolding verify_attestation
not_software = refl

module _ (crypto : Crypto) where
  -- The check is on the root and on the output hash.
  pub reexecute_iff :
      (model : MockEigenAiModel) (req : AgentRequest) (c : FreshnessCommitment)
      → (reexecute_and_compare crypto model req c ≡ true) ↔ (
          (c.context_root ≡ merkle_root crypto (build_root crypto model req))
          × (c.output_hash ≡ hash_output crypto (infer crypto model (prompt_hash crypto req))))
  unfolding reexecute_and_compare
  reexecute_iff model req c =
      let root = ==_iff c.context_root (merkle_root crypto (build_root crypto model req)) in
      let out =
        ==_iff c.output_hash (hash_output crypto (infer crypto model (prompt_hash crypto req))) in
      (
        λ h. (root.0 (ground arith), out.0 (ground arith)),
        λ (p, q). let r = root.1 p in let o = out.1 q in ground arith,
      )

  pub committed :
      (m : MockCommitter) (root : ExecutionContextRoot) (out : Hash32) (a : TripleAnchor)
      (c : FreshnessCommitment)
      → commit crypto m root out a ≡ ok c
      → (c.context_root ≡ merkle_root crypto root) × (c.output_hash ≡ out) × (c.anchor ≡ a)
  unfolding commit
  committed m root out a c h =
      subst
        (λ x. (x.context_root ≡ merkle_root crypto root) × (x.output_hash ≡ out) × (x.anchor ≡ a))
        (ok-injective h) (refl, refl, refl)

  -- The receipt of an honest inference passes re-execution for ever. Behind the settlement window it
  -- does not clear at the gate all the same, whatever the oracle says.
  pub stale_reexecutes :
      (real_anchors : Bool) (g : MockSettlementGate) (m : MockCommitter) (a : TripleAnchor)
      (c : FreshnessCommitment) (model : MockEigenAiModel) (req : AgentRequest) (now : TripleAnchor)
      (t : FreshnessThresholds)
      → commit crypto m
          (build_root crypto model req)
          (hash_output crypto (infer crypto model (prompt_hash crypto req)))
          a
        ≡ ok c
      → a.block_height + t.max_fs_blocks < now.block_height
      → (reexecute_and_compare crypto model req c ≡ true)
        × (verify_and_settle crypto real_anchors g c (build_root crypto model req) now t ≢ ok clear)
  stale_reexecutes real_anchors g m a c model req now t made late =
      let (root, out, clocks) =
        committed m (build_root crypto model req)
          (hash_output crypto (infer crypto model (prompt_hash crypto req))) a c made in
      (
        (reexecute_iff model req c).1 (root, out),
        λ clears.
            let may =
              (clears_iff crypto real_anchors g c (build_root crypto model req) now t).0 clears in
            let at : c.anchor.block_height ≡ a.block_height = ap (λ x. x.block_height) clocks in
            absurd (omega (arith, may.window.1, at)),
      )

  -- The verifier's answer on a receipt with another attestation chain.
  reattested :
      (c : FreshnessCommitment) (chain : AttestationChain)
      → verify crypto c ≡ ok tt
      → verify crypto (record c { attestation_chain = chain }) ≡ verify_attestation chain
  unfolding verify signing_digest
  reattested c chain accepted =
      let (key, signature, _) = (verify_iff crypto c).0 accepted in rw (key, signature) refl

  forge-eq :
      (m : MockCommitter) (root : ExecutionContextRoot) (out : Hash32) (a : TripleAnchor)
      (honest : FreshnessCommitment)
      → commit crypto m root out a ≡ ok honest
      → forge_capacity_falsification crypto m root out a
        ≡ some (record honest {
          attestation_chain = record {
            payload = text "mock-software-attestation";
            vendor = nvidia_h100;
          };
        })
  unfolding forge_capacity_falsification
  forge-eq m root out a honest made = rw (made, forge_capacity_falsification) refl

  -- Re-execution does not look at the attestation.
  reexecute-attest :
      (model : MockEigenAiModel) (req : AgentRequest) (c : FreshnessCommitment)
      (chain : AttestationChain)
      → reexecute_and_compare crypto model req (record c { attestation_chain = chain })
        ≡ reexecute_and_compare crypto model req c
  unfolding reexecute_and_compare
  reexecute-attest model req c chain = refl

  settle_refused :
      (real_anchors : Bool) (g : MockSettlementGate) (c : FreshnessCommitment)
      (root : ExecutionContextRoot) (now : TripleAnchor) (t : FreshnessThresholds) {e : PocError}
      → g.verifier.verify c ≡ err e
      → verify_and_settle crypto real_anchors g c root now t ≡ err e
  unfolding verify_and_settle
  settle_refused real_anchors g c root now t refused = rw refused refl

  -- The receipt that claims another hardware passes re-execution if the one it was made from does,
  -- since no signature covers the attestation; a gate with the software verifier refuses it as an
  -- invalid attestation, before it looks at anything else.
  pub forged_is_refused :
      (real_anchors : Bool) (g : MockSettlementGate) (m : MockCommitter)
      (root disclosed : ExecutionContextRoot) (out : Hash32) (a : TripleAnchor)
      (c honest : FreshnessCommitment) (model : MockEigenAiModel) (req : AgentRequest)
      (now : TripleAnchor) (t : FreshnessThresholds)
      → IsCrypto crypto
      → g.verifier ≡ mock_verifier crypto
      → forge_capacity_falsification crypto m root out a ≡ some c
      → commit crypto m root out a ≡ ok honest
      → (reexecute_and_compare crypto model req c ≡ reexecute_and_compare crypto model req honest)
        × (verify_and_settle crypto real_anchors g c disclosed now t ≡ err invalid_attestation)
  forged_is_refused real_anchors g m root disclosed out a c honest model req now t laws software
        forged made =
      let chain : AttestationChain = record {
        payload = text "mock-software-attestation";
        vendor = nvidia_h100;
      } in
      let same : record honest { attestation_chain = chain } ≡ c =
        some-injective (sym (forge-eq m root out a honest made) ∙ forged) in
      let refused : g.verifier.verify c ≡ err invalid_attestation =
        ap (λ (v : CommitmentVerifier). v.verify c) software
        ∙ ap (verify crypto) (sym same)
        ∙ reattested honest chain (commit-verify crypto m root out a honest laws made)
        ∙ not_software in
      (
        ap (reexecute_and_compare crypto model req) (sym same)
            ∙ reexecute-attest model req honest chain,
        settle_refused real_anchors g c disclosed now t refused,
      )
