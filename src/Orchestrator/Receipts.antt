-- ===== src/Orchestrator/Receipts.antt =====
-- examples/multi_agent_orchestrator.rs: what the receipts of a run say of it.
use proof_of_context_impl.Prelude.{
  ℕ, suc, arith, ◌≡◌, refl, ap, sym, ◌∙◌, List, [], ◌∷◌, ◌++◌, map, Bool, true, false, ◌↔◌, some,
  some-injective, subst,
}
use proof_of_context_impl.Crypto.{Crypto}
use proof_of_context_impl.Anchor.{TripleAnchor, IsAnchor}
use proof_of_context_impl.Context.{ExecutionContextRoot, Hash32, merkle_root}
use proof_of_context_impl.Commitment.{FreshnessCommitment}
use proof_of_context_impl.Orchestrator.{
  AgentTask, Agent, Cells, Session, Orchestrator, OrchestrationOutcome, complete, failed,
}
use proof_of_context_impl.Orchestrator.Steps.{build_step_root}
use proof_of_context_impl.Orchestrator.Pipeline.{run, started}
use proof_of_context_impl.Orchestrator.Trace.{
  moved, IsStepRoot, Ran, idle, step, Stops, completes, breaks, Runs,
}
use proof_of_context_impl.Orchestrator.Run.{run_lem}
use proof_of_context_impl.Prelude.Bytes.{Bytes}

-- The commitments that an outcome holds, complete or not.
abbrev pub receipts : OrchestrationOutcome → List FreshnessCommitment
receipts (complete r) = r.commitments
receipts (failed agent e cs) = cs

abbrev pub is_complete : OrchestrationOutcome → Bool
is_complete (complete r) = true
is_complete (failed agent e cs) = false

-- The anchors and the roots that these agents' receipts should have, from an anchor on.
abbrev pub expected : Crypto → AgentTask → List Agent → TripleAnchor → List (Hash32 × TripleAnchor)
expected crypto task [] a = []
expected crypto task (agent ∷ agents) a =
    (merkle_root crypto (build_step_root crypto agent.identity task []), a)
    ∷ expected crypto task agents (moved 1 a)

abbrev pub root_and_anchor : FreshnessCommitment → Hash32 × TripleAnchor
root_and_anchor c = (c.context_root, c.anchor)

-- The receipts that these agents should have: the one with number `k` at the anchor that is `k` blocks
-- behind the start.
pub data Receipted (crypto : Crypto) (task : AgentTask) (start : TripleAnchor)
    : ℕ → List Agent → List FreshnessCommitment → Type 0 where
  none_left : {k : ℕ} → Receipted crypto task start k [] []
  receipt_of :
      {k : ℕ} (agent : Agent) (c : FreshnessCommitment) (root : ExecutionContextRoot)
      {agents : List Agent} {cs : List FreshnessCommitment}
      → IsStepRoot crypto agent.identity task root
      → c.context_root ≡ merkle_root crypto root
      → c.anchor ≡ moved k start
      → Receipted crypto task start (suc k) agents cs
      → Receipted crypto task start k (agent ∷ agents) (c ∷ cs)

step_root-eq :
    (crypto : Crypto) (id : Bytes) (task : AgentTask) (r : ExecutionContextRoot)
    → IsStepRoot crypto id task r
    → r ≡ build_step_root crypto id task []
unfolding build_step_root
step_root-eq crypto id task r v = λ i. record {
  weights_hash = v.agent i;
  tokenizer_hash = v.tokenizer i;
  system_prompt_hash = v.prompt i;
  sampling_params = v.sampling i;
  runtime_version = v.runtime i;
  attention_impl_id = v.attention i;
  precision_mode = v.precision i;
  inference_config = v.config i;
  input_manifest_root = v.input i;
  kv_cache_root = v.cache i;
}

anchor-eq :
    (a b : TripleAnchor)
    → a.block_height ≡ b.block_height
    → a.tee_timestamp ≡ b.tee_timestamp
    → a.drand_round ≡ b.drand_round
    → a ≡ b
anchor-eq a b p q r = λ i. record { block_height = p i; tee_timestamp = q i; drand_round = r i }

moved-zero : (a : TripleAnchor) → IsAnchor a → moved 0 a ≡ a
moved-zero a v =
    anchor-eq (moved 0 a) a (omega (arith, v.block_range)) (omega (arith, v.tee_range)) refl

moved-suc : (a : TripleAnchor) (k : ℕ) → moved (suc k) a ≡ moved 1 (moved k a)
moved-suc a k = anchor-eq (moved (suc k) a) (moved 1 (moved k a)) (omega arith) (omega arith) refl

module _ (crypto : Crypto) (o : Orchestrator) (task : AgentTask) where
  pub receipts-Stops :
      {cs : List FreshnessCommitment} {a : TripleAnchor} {s final : Session} {agents : List Agent}
      {outcome : OrchestrationOutcome}
      → Stops crypto o task cs a s agents outcome final
      → receipts outcome ≡ cs
  receipts-Stops completes = refl
  receipts-Stops (breaks agent e after attempt) = refl

  pub complete_iff :
      {cs : List FreshnessCommitment} {a : TripleAnchor} {s final : Session} {agents : List Agent}
      {outcome : OrchestrationOutcome}
      → Stops crypto o task cs a s agents outcome final
      → (is_complete outcome ≡ true) ↔ (agents ≡ [])
  complete_iff completes = (λ _. refl, λ _. refl)
  complete_iff (breaks agent e after attempt) = (λ h. cc h, λ h. cc h)

  pub Ran-expected :
      {agents : List Agent} {a last : TripleAnchor} {s final : Session}
      {cs : List FreshnessCommitment}
      → Ran crypto o task agents a s cs last final
      → map root_and_anchor cs ≡ expected crypto task agents a
  Ran-expected (idle a s) = refl
  Ran-expected (step agent a s r after c attempt receipt rest) =
      let root = step_root-eq crypto agent.identity task receipt.root receipt.step in
      let context : c.context_root
          ≡ merkle_root crypto (build_step_root crypto agent.identity task []) =
        receipt.context ∙ ap (merkle_root crypto) root in
      let clocks = receipt.clocks in cc (context, clocks, Ran-expected rest)

  Ran-Receipted :
      {agents : List Agent} {a last : TripleAnchor} {s final : Session}
      {cs : List FreshnessCommitment} (start : TripleAnchor) (k : ℕ)
      → moved k start ≡ a
      → Ran crypto o task agents a s cs last final
      → Receipted crypto task start k agents cs
  Ran-Receipted start k at (idle a s) = none_left
  Ran-Receipted start k at (step agent a s r after c attempt receipt rest) =
      receipt_of agent c receipt.root receipt.step receipt.context (receipt.clocks ∙ sym at)
        (Ran-Receipted start (suc k) (moved-suc start k ∙ ap (moved 1) at) rest)

  -- A run that returns an outcome is a run of the agents.
  pub run-Runs :
      (start : TripleAnchor) (cells : Cells) {outcome : OrchestrationOutcome} {final : Session}
      → run crypto o task start cells ≡ some (outcome, final)
      → Runs crypto o task o.agents [] start (started cells) outcome final
  run-Runs start cells {outcome} {final} h =
      let (found, last, e, runs) = run_lem crypto o task start cells in
      subst (λ p. Runs crypto o task o.agents [] start (started cells) p.0 p.1)
        (some-injective (sym e ∙ h)) runs

  -- The receipts of a run are, in order, for the contexts of a beginning of the agents, each with the
  -- labels of the agent, the task and its input; the first at the start and each one block and two
  -- seconds behind the one before. They are those of all agents exactly when the outcome is complete.
  pub run-expected :
      (start : TripleAnchor) (cells : Cells) (outcome : OrchestrationOutcome) (final : Session)
      → IsAnchor start
      → run crypto o task start cells ≡ some (outcome, final)
      → (finished : List Agent) × (left : List Agent) × (o.agents ≡ finished ++ left)
        × Receipted crypto task start 0 finished (receipts outcome)
        × ((is_complete outcome ≡ true) ↔ (left ≡ []))
  run-expected start cells outcome final v h =
      let r = run-Runs start cells h in
      (
        r.finished,
        r.left,
        r.split,
        rw (receipts-Stops r.stops) (Ran-Receipted start 0 (moved-zero start v) r.ran),
        complete_iff r.stops,
      )
