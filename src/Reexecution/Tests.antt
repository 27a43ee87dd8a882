-- ===== src/Reexecution/Tests.antt =====
-- examples/eigencompute_freshness_receipt.rs: the scenarios of the demo.
use proof_of_context_impl.Prelude.{◌≡◌, ◌≢◌, ◌⊎◌, refl, true, false, some, none, arith}
use proof_of_context_impl.Prelude.Bytes.{text}
use proof_of_context_impl.Crypto.{CollisionAmong}
use proof_of_context_impl.Fixtures.{
  crypto, crypto-IsCrypto, pad-IsArray, committer, commitment, anchor, at_block, root,
}
use proof_of_context_impl.Error.{ok, err, invalid_attestation}
use proof_of_context_impl.Freshness.{default_base_mainnet}
use proof_of_context_impl.Context.{Hash32}
use proof_of_context_impl.Commitment.{FreshnessCommitment}
use proof_of_context_impl.Settle.{clear}
use proof_of_context_impl.Mock.Committer.{commit}
use proof_of_context_impl.Mock.Gate.{MockSettlementGate, verify_and_settle}
use proof_of_context_impl.Mock.Flow.{software_gate}
use proof_of_context_impl.Reexecution.{
  MockEigenAiModel, AgentRequest, canonical, pyth_btc_query, hash_output, infer, prompt_hash,
  build_root, reexecute_and_compare, forge_capacity_falsification,
}
use proof_of_context_impl.Reexecution.Cheats.{stale_reexecutes, forged_is_refused}
use proof_of_context_impl.Reexecution.Served.{HashesEither, IsModel, IsRequest, served_is_requested}

abbrev model : MockEigenAiModel
model = canonical crypto

model-IsModel : IsModel model
model-IsModel = record {
  weights = pad-IsArray 32 (text "eigenai/canonical-weights@v1");
  tokenizer = pad-IsArray 32 (text "eigenai/canonical-tokenizer@v1");
  runtime = pad-IsArray 32 (text "cuda-12.4 + flash-attn-2.6.3");
}

abbrev request : AgentRequest
request = pyth_btc_query crypto

request-IsRequest : IsRequest request
request-IsRequest = pad-IsArray 32 (text "pyth:BTC/USD@base-mainnet@slot-281520119")

-- the output hash of the honest inference
abbrev honest_output_hash : Hash32
honest_output_hash = hash_output crypto (infer crypto model (prompt_hash crypto request))

-- the receipt for an output hash
abbrev receipt : Hash32 → FreshnessCommitment
receipt output_hash =
    elim (commit crypto committer (build_root crypto model request) output_hash anchor) [
      | ok c ↦ c
      | err e ↦ commitment
    ]

made :
    (output_hash : Hash32)
    → commit crypto committer (build_root crypto model request) output_hash anchor
      ≡ ok (receipt output_hash)
unfolding commit
made output_hash = refl

abbrev software : MockSettlementGate
software = software_gate crypto

stale_reexecutes_example :
    (reexecute_and_compare crypto model request (receipt honest_output_hash) ≡ true)
    × (verify_and_settle crypto false software
          (receipt honest_output_hash)
          (build_root crypto model request)
          (at_block 1500)
          default_base_mainnet
        ≢ ok clear)
stale_reexecutes_example =
    stale_reexecutes crypto false software committer anchor (receipt honest_output_hash) model
      request (at_block 1500) default_base_mainnet (made honest_output_hash) (omega arith)

passes : reexecute_and_compare crypto model request (receipt honest_output_hash) ≡ true
passes =
    (stale_reexecutes crypto false software committer anchor (receipt honest_output_hash) model
      request (at_block 1500) default_base_mainnet (made honest_output_hash) (omega arith)).0

served_is_requested_example :
    ((model ≡ model) × (request ≡ request) × (model.weights_hash ≡ model.weights_hash))
    ⊎ CollisionAmong crypto (HashesEither crypto model model model request request)
served_is_requested_example =
    served_is_requested crypto committer anchor (receipt honest_output_hash) model model model
      request request crypto-IsCrypto model-IsModel model-IsModel model-IsModel request-IsRequest
      request-IsRequest (made honest_output_hash) passes

-- what the demo forges
abbrev forged : FreshnessCommitment
forged = elim (forge_capacity_falsification crypto committer root honest_output_hash anchor) [
  | some c ↦ c
  | none ↦ commitment
]

forged_made :
    forge_capacity_falsification crypto committer root honest_output_hash anchor ≡ some forged
unfolding forge_capacity_falsification commit
forged_made = refl

abbrev before : FreshnessCommitment
before = elim (commit crypto committer root honest_output_hash anchor) [
  | ok c ↦ c
  | err e ↦ commitment
]

before_made : commit crypto committer root honest_output_hash anchor ≡ ok before
unfolding commit
before_made = refl

forged_is_refused_example :
    (reexecute_and_compare crypto model request forged
      ≡ reexecute_and_compare crypto model request before)
    × (verify_and_settle crypto false software forged root (at_block 1200) default_base_mainnet
        ≡ err invalid_attestation)
forged_is_refused_example =
    forged_is_refused crypto false software committer root root honest_output_hash anchor forged
      before model request (at_block 1200) default_base_mainnet crypto-IsCrypto refl forged_made
      before_made
