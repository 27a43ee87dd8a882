-- ===== src/Settle.antt =====
-- src/settle.rs: the settlement gate interface, and its quick check.
use proof_of_context_impl.Prelude.{Bool, true, false, List}
use proof_of_context_impl.Error.{PocError, Result, ok, ◌>>=◌}
use proof_of_context_impl.Freshness.{FreshnessType, FreshnessThresholds}
use proof_of_context_impl.Anchor.{TripleAnchor}
use proof_of_context_impl.Context.{ExecutionContextRoot}
use proof_of_context_impl.Commitment.{FreshnessCommitment}

pub data SettlementResult : Type 0 where
  clear : SettlementResult
  rejected : List FreshnessType → SettlementResult

pub record SettlementGate : Type 0 where
  pub verify_and_settle :
      FreshnessCommitment
      → ExecutionContextRoot
      → TripleAnchor
      → FreshnessThresholds
      → Result PocError SettlementResult

-- `matches!(result, SettlementResult::Clear)`
abbrev pub is_clear : SettlementResult → Bool
is_clear clear = true
is_clear (rejected _) = false

-- The default method of the trait.
unfoldable pub is_settlement_eligible :
    SettlementGate
    → FreshnessCommitment
    → ExecutionContextRoot
    → TripleAnchor
    → FreshnessThresholds
    → Result PocError Bool
is_settlement_eligible gate commitment root now thresholds = do
  result ← gate.verify_and_settle commitment root now thresholds
  ok (is_clear result)
