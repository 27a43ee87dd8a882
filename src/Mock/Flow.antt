-- ===== src/Mock/Flow.antt =====
-- src/mock.rs: the whole path, from the committer to the gate.
use proof_of_context_impl.Prelude.{◌≡◌, ◌↔◌, refl, subst, ◌⊎◌, Bool, true, arith}
use proof_of_context_impl.Crypto.{Crypto, IsCrypto, Collision}
use proof_of_context_impl.Error.{ok, ok-injective}
use proof_of_context_impl.Freshness.{FreshnessThresholds}
use proof_of_context_impl.SortedMap.{get}
use proof_of_context_impl.Anchor.{TripleAnchor, internally_consistent}
use proof_of_context_impl.Context.{Hash32, ExecutionContextRoot, merkle_root}
use proof_of_context_impl.Context.Encoding.{IsContext}
use proof_of_context_impl.Context.Binding.{merkle_root-binds}
use proof_of_context_impl.Commitment.{FreshnessCommitment}
use proof_of_context_impl.Settle.{clear}
use proof_of_context_impl.Mock.Committer.{MockCommitter, commit}
use proof_of_context_impl.Mock.Verifier.{mock_verifier}
use proof_of_context_impl.Mock.Verifier.Roundtrip.{commit-verify}
use proof_of_context_impl.Mock.Oracle.{
  always_fresh, canonical_state_oracle, model_epoch_distance, input_lag_blocks,
}
use proof_of_context_impl.Mock.Gate.{MockSettlementGate, verify_and_settle}
use proof_of_context_impl.Mock.Gate.Decision.{InWindow, clears_iff}

commit-root :
    (crypto : Crypto) (m : MockCommitter) (root : ExecutionContextRoot) (out : Hash32)
    (a : TripleAnchor) (c : FreshnessCommitment)
    → commit crypto m root out a ≡ ok c
    → (c.context_root ≡ merkle_root crypto root) × (c.anchor ≡ a)
unfolding commit
commit-root crypto m root out a c h =
    subst (λ x. (x.context_root ≡ merkle_root crypto root) × (x.anchor ≡ a)) (ok-injective h)
      (refl, refl)

-- the software gate with the oracle that vouches for everything
abbrev pub software_gate : Crypto → MockSettlementGate
software_gate crypto = record {
  verifier = mock_verifier crypto;
  oracle = canonical_state_oracle always_fresh;
}

-- What the committer makes clears the software gate, on disclosure of its own context, exactly when
-- the clocks at commit time agree with one another and the settlement block lies in the window.
pub commit-clears_iff :
    (crypto : Crypto) (real_anchors : Bool) (m : MockCommitter) (root : ExecutionContextRoot)
    (out : Hash32) (a : TripleAnchor) (c : FreshnessCommitment) (now : TripleAnchor)
    (t : FreshnessThresholds)
    → IsCrypto crypto
    → commit crypto m root out a ≡ ok c
    → (verify_and_settle crypto real_anchors (software_gate crypto) c root now t ≡ ok clear)
      ↔ ((internally_consistent real_anchors a t ≡ true) × InWindow c now t)
unfolding model_epoch_distance input_lag_blocks get
commit-clears_iff crypto real_anchors m root out a c now t laws h =
    let (bound, clocks) = commit-root crypto m root out a c h in
    let iff = clears_iff crypto real_anchors (software_gate crypto) c root now t in
    (
      λ k. let m = iff.0 k in (rw (← clocks) m.consistent, m.window),
      λ k. iff.1 (record {
        verified = commit-verify crypto m root out a c laws h;
        bound = cc bound;
        consistent = rw clocks k.0;
        window = k.1;
        model = omega arith;
        input = omega arith;
      }),
    )

-- Whatever context is disclosed for a commitment that then clears is the context that the committer
-- signed, in every field, or the two show a collision of SHA-256.
pub disclosure_is_signed_context :
    (crypto : Crypto) (real_anchors : Bool) (g : MockSettlementGate) (m : MockCommitter)
    (root disclosed : ExecutionContextRoot) (out : Hash32) (a : TripleAnchor)
    (c : FreshnessCommitment) (now : TripleAnchor) (t : FreshnessThresholds)
    → IsContext root
    → IsContext disclosed
    → commit crypto m root out a ≡ ok c
    → verify_and_settle crypto real_anchors g c disclosed now t ≡ ok clear
    → (disclosed ≡ root) ⊎ Collision crypto
disclosure_is_signed_context crypto real_anchors g m root disclosed out a c now t v w h k =
    let (bound, clocks) = commit-root crypto m root out a c h in
    let cleared = (clears_iff crypto real_anchors g c disclosed now t).0 k in
    merkle_root-binds crypto disclosed root w v (cc (bound, cleared.bound))
