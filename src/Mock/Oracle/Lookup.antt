-- ===== src/Mock/Oracle/Lookup.antt =====
-- src/mock.rs: what the mock oracle answers after its builders.
use proof_of_context_impl.Prelude.{ℕ, ◌≡◌, refl, arith, if◌then◌else◌}
use proof_of_context_impl.Prelude.Bytes.{◌==◌}
use proof_of_context_impl.Error.{ok}
use proof_of_context_impl.SortedMap.Laws.{get-insert}
use proof_of_context_impl.Anchor.{TripleAnchor}
use proof_of_context_impl.Context.{Hash32}
use proof_of_context_impl.Mock.Oracle.{
  MockCanonicalStateOracle, with_model_epoch, with_input_lag, model_epoch_distance,
  input_lag_blocks,
}

-- Registering a model distance answers that hash with the distance from then on, leaves the answer
-- for every other model as it was, and changes no answer about inputs.
pub distance-with_model_epoch :
    (o : MockCanonicalStateOracle) (w v i : Hash32) (d : ℕ) (now : TripleAnchor)
    → (model_epoch_distance (with_model_epoch o w d) v now
        ≡ (if v == w then ok d else model_epoch_distance o v now))
      × (input_lag_blocks (with_model_epoch o w d) i now ≡ input_lag_blocks o i now)
unfolding model_epoch_distance with_model_epoch input_lag_blocks
distance-with_model_epoch o w v i d now = (ground (arith, get-insert w v d o.model_epochs), refl)

-- The same for input lags.
pub lag-with_input_lag :
    (o : MockCanonicalStateOracle) (w v i : Hash32) (d : ℕ) (now : TripleAnchor)
    → (input_lag_blocks (with_input_lag o w d) v now
        ≡ (if v == w then ok d else input_lag_blocks o v now))
      × (model_epoch_distance (with_input_lag o w d) i now ≡ model_epoch_distance o i now)
unfolding model_epoch_distance with_input_lag input_lag_blocks
lag-with_input_lag o w v i d now = (ground (arith, get-insert w v d o.input_lags), refl)
