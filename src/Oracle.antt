-- ===== src/Oracle.antt =====
-- src/oracle.rs: the canonical-state oracle interface, and the composition of two by axis.
pub mod Ages
mod Tests
use proof_of_context_impl.Prelude.{ℕ}
use proof_of_context_impl.Error.{PocError, Result}
use proof_of_context_impl.Anchor.{TripleAnchor}
use proof_of_context_impl.Context.{Hash32}

pub record CanonicalStateOracle : Type 0 where
  pub model_epoch_distance : Hash32 → TripleAnchor → Result PocError ℕ
  pub input_lag_blocks : Hash32 → TripleAnchor → Result PocError ℕ

pub record SplitOracle : Type 0 where
  pub model : CanonicalStateOracle
  pub input : CanonicalStateOracle

-- impl CanonicalStateOracle for SplitOracle
abbrev pub split_oracle : SplitOracle → CanonicalStateOracle
split_oracle s = record {
  model_epoch_distance = λ weights_hash now. s.model.model_epoch_distance weights_hash now;
  input_lag_blocks = λ input_manifest_root now. s.input.input_lag_blocks input_manifest_root now;
}
