-- ===== src/InputFreshness/Oracle.antt =====
-- src/input_freshness.rs: the oracle over the witnesses presented.
use proof_of_context_impl.Prelude.{ℕ, Bool, true, Option, List}
use proof_of_context_impl.Prelude.Bytes.{Bytes}
use proof_of_context_impl.Prelude.Word.{saturating_sub}
use proof_of_context_impl.Crypto.{Crypto}
use proof_of_context_impl.Error.{PocError, oracle_unavailable, Result, ok, err, ok_or, ◌>>=◌}
use proof_of_context_impl.SortedMap
use proof_of_context_impl.SortedMap.{SortedMap}
use proof_of_context_impl.Anchor.{TripleAnchor}
use proof_of_context_impl.Context.{Hash32}
use proof_of_context_impl.Canonical.{Value, Json}
use proof_of_context_impl.Oracle.{CanonicalStateOracle}
use proof_of_context_impl.InputFreshness.Witness.{
  InputFreshnessWitness, from_poc_blocks, input_manifest_root, witness_as_of_block,
}

pub record BaseOracleInputOracle : Type 0 where
  -- `HashMap<Hash32, InputFreshnessWitness>`
  pub witnesses : SortedMap InputFreshnessWitness
  pub expected_pubkey : Option Bytes
  pub enforce_horizon : Bool

unfoldable pub new : Option Bytes → BaseOracleInputOracle
new expected_pubkey = record {
  witnesses = SortedMap.empty;
  expected_pubkey = expected_pubkey;
  enforce_horizon = true;
}

unfoldable pub with_enforce_horizon : BaseOracleInputOracle → Bool → BaseOracleInputOracle
with_enforce_horizon o enforce = record o { enforce_horizon = enforce }

-- The root and the new state, or the error with which the state is left as it was.
unfoldable pub present_witness :
    Crypto
    → Json
    → BaseOracleInputOracle
    → List Value
    → Result PocError (Hash32 × BaseOracleInputOracle)
present_witness crypto json o poc_blocks = do
  witness ← from_poc_blocks crypto json poc_blocks o.expected_pubkey
  let root = input_manifest_root crypto json witness
  ok (root, record o { witnesses = SortedMap.insert root witness o.witnesses })

unfoldable pub input_lag_blocks :
    Bool → BaseOracleInputOracle → Hash32 → TripleAnchor → Result PocError ℕ
input_lag_blocks real_anchors o root now = do
  witness ← ok_or (SortedMap.get root o.witnesses) oracle_unavailable
  as_of ← witness_as_of_block real_anchors witness now o.enforce_horizon
  ok (saturating_sub now.block_height as_of)

-- impl CanonicalStateOracle for BaseOracleInputOracle
abbrev pub canonical_state_oracle : Bool → BaseOracleInputOracle → CanonicalStateOracle
canonical_state_oracle real_anchors o = record {
  model_epoch_distance = λ weights_hash now. err oracle_unavailable;
  input_lag_blocks =
      λ input_manifest_root now. input_lag_blocks real_anchors o input_manifest_root now;
}
