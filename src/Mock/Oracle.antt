-- ===== src/Mock/Oracle.antt =====
-- src/mock.rs: MockCanonicalStateOracle, two maps with optional defaults.
pub mod Lookup
use proof_of_context_impl.Prelude.{ℕ, Option, none, some}
use proof_of_context_impl.Error.{PocError, oracle_unavailable, Result, ok_or}
use proof_of_context_impl.SortedMap
use proof_of_context_impl.SortedMap.{SortedMap}
use proof_of_context_impl.Anchor.{TripleAnchor}
use proof_of_context_impl.Context.{Hash32}
use proof_of_context_impl.Oracle.{CanonicalStateOracle}

pub record MockCanonicalStateOracle : Type 0 where
  pub model_epochs : SortedMap ℕ
  pub input_lags : SortedMap ℕ
  pub default_model : Option ℕ
  pub default_input : Option ℕ

abbrev pub always_fresh : MockCanonicalStateOracle
always_fresh = record {
  model_epochs = SortedMap.empty;
  input_lags = SortedMap.empty;
  default_model = some 0;
  default_input = some 0;
}

abbrev pub strict : MockCanonicalStateOracle
strict = record {
  model_epochs = SortedMap.empty;
  input_lags = SortedMap.empty;
  default_model = none;
  default_input = none;
}

unfoldable pub with_model_epoch : MockCanonicalStateOracle → Hash32 → ℕ → MockCanonicalStateOracle
with_model_epoch o weights_hash distance = record o {
  model_epochs = SortedMap.insert weights_hash distance o.model_epochs;
}

unfoldable pub with_input_lag : MockCanonicalStateOracle → Hash32 → ℕ → MockCanonicalStateOracle
with_input_lag o input_manifest_root lag = record o {
  input_lags = SortedMap.insert input_manifest_root lag o.input_lags;
}

unfoldable pub with_default_model : MockCanonicalStateOracle → Option ℕ → MockCanonicalStateOracle
with_default_model o distance = record o { default_model = distance }

unfoldable pub with_default_input : MockCanonicalStateOracle → Option ℕ → MockCanonicalStateOracle
with_default_input o lag = record o { default_input = lag }

-- `Option::or`
abbrev pub or : Option ℕ → Option ℕ → Option ℕ
or (some a) b = some a
or none b = b

unfoldable pub model_epoch_distance :
    MockCanonicalStateOracle → Hash32 → TripleAnchor → Result PocError ℕ
model_epoch_distance o weights_hash now =
    ok_or (or (SortedMap.get weights_hash o.model_epochs) o.default_model) oracle_unavailable

unfoldable pub input_lag_blocks :
    MockCanonicalStateOracle → Hash32 → TripleAnchor → Result PocError ℕ
input_lag_blocks o input_manifest_root now =
    ok_or (or (SortedMap.get input_manifest_root o.input_lags) o.default_input) oracle_unavailable

-- impl CanonicalStateOracle for MockCanonicalStateOracle
abbrev pub canonical_state_oracle : MockCanonicalStateOracle → CanonicalStateOracle
canonical_state_oracle o = record {
  model_epoch_distance = λ weights_hash now. model_epoch_distance o weights_hash now;
  input_lag_blocks = λ input_manifest_root now. input_lag_blocks o input_manifest_root now;
}
