-- ===== src/Mock/Gate.antt =====
-- src/mock.rs: MockSettlementGate. `real_anchors` is the cargo feature of that name.
pub mod Decision
pub mod Report
pub mod Perish
use proof_of_context_impl.Prelude.{
  ℕ, ◌-◌, Bool, true, false, ◌||◌, not, List, [], ◌∷◌, ◌++◌, ltb, if◌then◌else◌,
}
use proof_of_context_impl.Prelude.Bytes.{◌==◌}
use proof_of_context_impl.Crypto.{Crypto}
use proof_of_context_impl.Error.{PocError, root_mismatch, Result, ok, err, ◌>>◌}
use proof_of_context_impl.Freshness.{
  FreshnessType, computational, model, input, settlement, FreshnessThresholds,
}
use proof_of_context_impl.Anchor.{TripleAnchor, internally_consistent}
use proof_of_context_impl.Context.{ExecutionContextRoot, merkle_root}
use proof_of_context_impl.Commitment.{FreshnessCommitment, CommitmentVerifier}
use proof_of_context_impl.Oracle.{CanonicalStateOracle}
use proof_of_context_impl.Settle.{SettlementResult, clear, rejected, SettlementGate}

pub record MockSettlementGate : Type 0 where
  pub verifier : CommitmentVerifier
  pub oracle : CanonicalStateOracle

-- MockSettlementGate::new
abbrev pub new_gate : CommitmentVerifier → CanonicalStateOracle → MockSettlementGate
new_gate verifier oracle = record { verifier = verifier; oracle = oracle }

-- `violations.push(t)` under a test
abbrev pub push_if : Bool → FreshnessType → List FreshnessType → List FreshnessType
push_if violated t violations = if violated then violations ++ t ∷ [] else violations

-- The four pushes, in order, each under its test.
unfoldable pub collect : Bool → Bool → Bool → Bool → List FreshnessType
collect inconsistent late model_stale input_stale =
    push_if input_stale input
      (push_if model_stale model (push_if late settlement (push_if inconsistent computational [])))

-- `match answer { Ok(d) => d > limit, Err(_) => true }`
unfoldable pub is_stale : Result PocError ℕ → ℕ → Bool
is_stale (ok distance) limit = ltb limit distance
is_stale (err _) limit = true

unfoldable pub fs_violation : FreshnessCommitment → TripleAnchor → FreshnessThresholds → Bool
fs_violation commitment now thresholds =
    ltb now.block_height commitment.anchor.block_height
    || ltb thresholds.max_fs_blocks (now.block_height - commitment.anchor.block_height)

-- `if violations.is_empty() { Clear } else { Rejected(violations) }`
unfoldable pub verdict : List FreshnessType → SettlementResult
verdict [] = clear
verdict (v ∷ vs) = rejected (v ∷ vs)

unfoldable pub verify_and_settle :
    Crypto
    → Bool
    → MockSettlementGate
    → FreshnessCommitment
    → ExecutionContextRoot
    → TripleAnchor
    → FreshnessThresholds
    → Result PocError SettlementResult
verify_and_settle crypto real_anchors gate commitment root now thresholds = do
  gate.verifier.verify commitment
  if not (merkle_root crypto root == commitment.context_root)
      then err root_mismatch
      else let inconsistent =
          not (internally_consistent real_anchors commitment.anchor thresholds) in
        let late = fs_violation commitment now thresholds in
        let model_stale =
          is_stale (gate.oracle.model_epoch_distance root.weights_hash now)
            thresholds.max_fm_epochs in
        let input_stale =
          is_stale (gate.oracle.input_lag_blocks root.input_manifest_root now)
            thresholds.max_fi_blocks in
        ok (verdict (collect inconsistent late model_stale input_stale))

-- impl SettlementGate for MockSettlementGate
abbrev pub settlement_gate : Crypto → Bool → MockSettlementGate → SettlementGate
settlement_gate crypto real_anchors gate = record {
  verify_and_settle = λ commitment root now thresholds.
      verify_and_settle crypto real_anchors gate commitment root now thresholds;
}
