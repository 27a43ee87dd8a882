-- ===== src/Renewal/Window.antt =====
-- src/renewal.rs: root bumps are prospective only, on the window that the gate enforces.
use proof_of_context_impl.Prelude.{◌≡◌, ◌≢◌, ◌↔◌, Bool, arith}
use proof_of_context_impl.Prelude.Bytes.{==_iff}
use proof_of_context_impl.Crypto.{Crypto}
use proof_of_context_impl.Error.{ok}
use proof_of_context_impl.Freshness.{FreshnessThresholds}
use proof_of_context_impl.Anchor.{TripleAnchor}
use proof_of_context_impl.Context.{Hash32, ExecutionContextRoot}
use proof_of_context_impl.Commitment.{FreshnessCommitment}
use proof_of_context_impl.Settle.{clear}
use proof_of_context_impl.Mock.Gate.{MockSettlementGate, verify_and_settle}
use proof_of_context_impl.Mock.Gate.Decision.{InWindow, clears_iff}
use proof_of_context_impl.Renewal.{
  still_valid, protected_by_prospective_only, expired_require_recommit, evaluate,
}

-- The policy answers `still_valid` exactly for the current root; a commitment against another root is
-- protected exactly while its settlement block lies in the window, and expired exactly outside it.
pub evaluate_iff :
    (c : FreshnessCommitment) (current : Hash32) (now : TripleAnchor) (t : FreshnessThresholds)
    → ((evaluate c current now t ≡ ok still_valid) ↔ (c.context_root ≡ current))
      × ((evaluate c current now t ≡ ok protected_by_prospective_only)
          ↔ ((c.context_root ≢ current) × InWindow c now t))
      × ((evaluate c current now t ≡ ok expired_require_recommit)
          ↔ ((c.context_root ≢ current) × (¬ InWindow c now t)))
unfolding evaluate
evaluate_iff c current now t =
    let root_iff = ==_iff c.context_root current in
    (
      (λ h. ground (arith, root_iff), λ h. ground (arith, root_iff)),
      (λ h. ground (arith, root_iff), λ h. ground (arith, root_iff)),
      (λ h. ground (arith, root_iff), λ h. ground (arith, root_iff)),
    )

-- A commitment that the gate clears is never asked to recommit, whatever root the protocol has moved
-- on to: a bump of the root does not invalidate work that can still settle.
pub cleared_is_not_expired :
    (crypto : Crypto) (real_anchors : Bool) (g : MockSettlementGate) (c : FreshnessCommitment)
    (root : ExecutionContextRoot) (now : TripleAnchor) (t : FreshnessThresholds) (current : Hash32)
    → verify_and_settle crypto real_anchors g c root now t ≡ ok clear
    → evaluate c current now t ≢ ok expired_require_recommit
cleared_is_not_expired crypto real_anchors g c root now t current h e =
    let m = (clears_iff crypto real_anchors g c root now t).0 h in
    (((evaluate_iff c current now t).2).0 e).1 m.window
