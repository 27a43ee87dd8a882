-- ===== src/Oracle/Tests.antt =====
-- src/oracle.rs: a settlement over a registry with one lineage and an input oracle with one witness.
use proof_of_context_impl.Prelude.{ℕ, ◌≤◌, ◌≡◌, arith, refl, true, false, none, some, [], ◌∷◌}
use proof_of_context_impl.Prelude.Bytes.{text, cmp}
use proof_of_context_impl.Fixtures.{crypto, hash, root, commitment, verified, at_block, anchor}
use proof_of_context_impl.Error.{ok}
use proof_of_context_impl.Freshness.{permissive_testnet}
use proof_of_context_impl.SortedMap
use proof_of_context_impl.Anchor.{internally_consistent, tee_drand_consistent}
use proof_of_context_impl.Commitment.{CommitmentVerifier}
use proof_of_context_impl.ModelRegistry
use proof_of_context_impl.ModelRegistry.{
  QuorumModelOracle, position_of, find_position, canonical_position_at, last_active,
}
use proof_of_context_impl.InputFreshness.Attestation.{as_of_block}
use proof_of_context_impl.InputFreshness.Oracle
use proof_of_context_impl.InputFreshness.Oracle.{BaseOracleInputOracle}
use proof_of_context_impl.InputFreshness.Witness.{
  InputFreshnessWitness, witness_as_of_block, stalest_from,
}
use proof_of_context_impl.Settle.{clear}
use proof_of_context_impl.Mock.Verifier.{mock_verifier}
use proof_of_context_impl.Mock.Gate.{verify_and_settle}
use proof_of_context_impl.Mock.Gate.Decision.{clears_iff}
use proof_of_context_impl.Oracle.Ages.{real_gate, real_oracle_clears_earlier}

-- The committed model is canonical from block 100 on.
abbrev registry : QuorumModelOracle
registry = record {
  publishers = SortedMap.empty;
  threshold = 1;
  lineage = some (record {
    epochs = record { weights_hash = hash 1; epoch = 1; activation_block = 100 } ∷ [];
  });
}

-- The inputs are as of block 1000, good for 300 blocks.
abbrev witness : InputFreshnessWitness
witness = record {
  attestations =
      record {
        source_id = text "s";
        endpoint = text "/prices";
        payload_hash = hash 5;
        timestamp = text "2026-01-01";
        freshness_horizon_secs = 600;
        anchor_block_height = some 1000;
        signature = none;
        public_key = none;
        freshness_type = text "f_i";
      }
      ∷ [];
}

abbrev inputs : BaseOracleInputOracle
inputs = record {
  witnesses = (hash 8, witness) ∷ [];
  expected_pubkey = none;
  enforce_horizon = true;
}

abbrev verifier : CommitmentVerifier
verifier = mock_verifier crypto

clocks_agree : internally_consistent false anchor permissive_testnet ≡ true
unfolding internally_consistent tee_drand_consistent
clocks_agree = refl

distance_at :
    (height : ℕ)
    → 100 ≤ height
    → ModelRegistry.model_epoch_distance registry (hash 1) (at_block height) ≡ ok 0
unfolding ModelRegistry.model_epoch_distance position_of find_position canonical_position_at
    last_active cmp
distance_at height h = ground arith

lag_at_1200 : Oracle.input_lag_blocks false inputs (hash 8) (at_block 1200) ≡ ok 200
unfolding Oracle.input_lag_blocks witness_as_of_block stalest_from as_of_block SortedMap.get cmp
lag_at_1200 = refl

settled :
    verify_and_settle crypto false
      (real_gate false verifier registry inputs)
      commitment
      root
      (at_block 1200)
      permissive_testnet
    ≡ ok clear
settled =
    (clears_iff crypto false (real_gate false verifier registry inputs) commitment root
        (at_block 1200) permissive_testnet).1
      (record {
        verified = verified;
        bound = refl;
        consistent = clocks_agree;
        window = (omega arith, omega arith);
        model = rw (distance_at 1200 (omega arith)) (omega arith);
        input = rw lag_at_1200 (omega arith);
      })

real_oracle_clears_earlier_example :
    verify_and_settle crypto false
      (real_gate false verifier registry inputs)
      commitment
      root
      (at_block 1100)
      permissive_testnet
    ≡ ok clear
real_oracle_clears_earlier_example =
    real_oracle_clears_earlier crypto false verifier registry inputs commitment root
      permissive_testnet (at_block 1100) (at_block 1200) 0 (distance_at 1100 (omega arith))
      (omega arith) (omega arith) settled
