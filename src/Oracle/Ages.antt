-- ===== src/Oracle/Ages.antt =====
-- src/oracle.rs: the gate over the model registry and the input oracle, composed by axis.
use proof_of_context_impl.Prelude.{ℕ, ◌≤◌, ◌≡◌, arith, refl, sym, ◌∙◌, Bool}
use proof_of_context_impl.Crypto.{Crypto}
use proof_of_context_impl.Error.{PocError, Result, ok, err, ok-injective}
use proof_of_context_impl.Freshness.{FreshnessThresholds}
use proof_of_context_impl.Anchor.{TripleAnchor}
use proof_of_context_impl.Context.{ExecutionContextRoot}
use proof_of_context_impl.Commitment.{FreshnessCommitment, CommitmentVerifier}
use proof_of_context_impl.Oracle.{CanonicalStateOracle, split_oracle}
use proof_of_context_impl.ModelRegistry
use proof_of_context_impl.ModelRegistry.{QuorumModelOracle}
use proof_of_context_impl.ModelRegistry.Distance.{model_epoch_distance_mono}
use proof_of_context_impl.InputFreshness.Oracle
use proof_of_context_impl.InputFreshness.Oracle.{BaseOracleInputOracle}
use proof_of_context_impl.InputFreshness.Earlier.{input_lag_blocks_earlier}
use proof_of_context_impl.Settle.{clear}
use proof_of_context_impl.Mock.Gate.{MockSettlementGate, new_gate, verify_and_settle}
use proof_of_context_impl.Mock.Gate.Decision.{Within, clears_iff}
use proof_of_context_impl.Mock.Gate.Perish.{IsAging, Answers, split-IsAging, clears_earlier}

registry-IsAging : (m : QuorumModelOracle) → IsAging (ModelRegistry.canonical_state_oracle m)
registry-IsAging m = record {
  model_ages = λ w now later d e le p q.
      let (x, s, h) = model_epoch_distance_mono m w now later d le p in
      omega (arith, ok-injective (sym s ∙ q));
  input_ages = λ w now later d e le p q. cc p;
}

inputs-IsAging :
    (real_anchors : Bool) (i : BaseOracleInputOracle)
    → IsAging (Oracle.canonical_state_oracle real_anchors i)
inputs-IsAging real_anchors i = record {
  model_ages = λ w now later d e le p q. cc p;
  input_ages = λ w now later d e le p q.
      let (x, s, h) = input_lag_blocks_earlier real_anchors i w now later e le q in
      omega (arith, ok-injective (sym s ∙ p));
}

-- The oracle that answers for the model from the registry and for the inputs from the witnesses.
abbrev pub real_oracle : Bool → QuorumModelOracle → BaseOracleInputOracle → CanonicalStateOracle
real_oracle real_anchors m i = split_oracle (record {
  model = ModelRegistry.canonical_state_oracle m;
  input = Oracle.canonical_state_oracle real_anchors i;
})

abbrev pub real_gate :
    Bool → CommitmentVerifier → QuorumModelOracle → BaseOracleInputOracle → MockSettlementGate
real_gate real_anchors verifier m i = new_gate verifier (real_oracle real_anchors m i)

Within-Answers : (r : Result PocError ℕ) (limit : ℕ) → Within r limit → Answers r
Within-Answers (ok d) limit h = (d, refl)
Within-Answers (err e) limit h = absurd h

-- With and without `real-anchors`, over the model registry and the input oracle, for one adopted
-- lineage and one set of presented witnesses: a commitment that clears at some block also clears at
-- every block from its commit block up to there at which the registry has a distance for its model.
pub real_oracle_clears_earlier :
    (crypto : Crypto) (real_anchors : Bool) (verifier : CommitmentVerifier) (m : QuorumModelOracle)
    (i : BaseOracleInputOracle) (c : FreshnessCommitment) (root : ExecutionContextRoot)
    (t : FreshnessThresholds) (now later : TripleAnchor) (distance : ℕ)
    → ModelRegistry.model_epoch_distance m root.weights_hash now ≡ ok distance
    → c.anchor.block_height ≤ now.block_height
    → now.block_height ≤ later.block_height
    → verify_and_settle crypto real_anchors (real_gate real_anchors verifier m i) c root later t
      ≡ ok clear
    → verify_and_settle crypto real_anchors (real_gate real_anchors verifier m i) c root now t
      ≡ ok clear
real_oracle_clears_earlier crypto real_anchors verifier m i c root t now later distance known from
      to h =
    let gate = real_gate real_anchors verifier m i in
    let settled = (clears_iff crypto real_anchors gate c root later t).0 h in
    let (lag, input_known) =
      Within-Answers (Oracle.input_lag_blocks real_anchors i root.input_manifest_root later)
        t.max_fi_blocks settled.input in
    let (lag_now, found, le) =
      input_lag_blocks_earlier real_anchors i root.input_manifest_root now later lag to
        input_known in
    clears_earlier crypto real_anchors gate c root t now later
      (split-IsAging
        (record {
          model = ModelRegistry.canonical_state_oracle m;
          input = Oracle.canonical_state_oracle real_anchors i;
        })
        (registry-IsAging m) (inputs-IsAging real_anchors i))
      (distance, known) (lag_now, found) from to h
