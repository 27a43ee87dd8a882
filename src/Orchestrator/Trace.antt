-- ===== src/Orchestrator/Trace.antt =====
-- examples/multi_agent_orchestrator.rs: what a run of the agents is, step by step: the receipt of each
-- step, the clock between two, and the two ends.
use proof_of_context_impl.Prelude.{ℕ, ◌+◌, ◌*◌, ◌%◌, ◌≡◌, none, List, [], ◌∷◌, ◌++◌, length, map}
use proof_of_context_impl.Prelude.Bytes.{Bytes, text}
use proof_of_context_impl.Prelude.Word.{u64_mod, u128_mod}
use proof_of_context_impl.Prelude.Decimal.{decimal, debug_list}
use proof_of_context_impl.Crypto.{Crypto}
use proof_of_context_impl.Error.{ok, err}
use proof_of_context_impl.Anchor.{TripleAnchor}
use proof_of_context_impl.Context.{ExecutionContextRoot, flash_attention2, bf16, merkle_root}
use proof_of_context_impl.Commitment.{FreshnessCommitment, signing_digest}
use proof_of_context_impl.Orchestrator.{
  AgentTask, AgentResult, AgentError, Agent, Session, on_event, agent_succeeded, agent_failed,
  orchestrator_complete, Orchestrator, OrchestrationOutcome, complete, failed,
}
use proof_of_context_impl.Orchestrator.Pipeline.{run_agent_with_retry, debug_error}

-- So many blocks and twice as many seconds later, with the wrap of the machine words.
abbrev pub moved : ℕ → TripleAnchor → TripleAnchor
moved k a = record {
  block_height = (a.block_height + k) % u64_mod;
  tee_timestamp = (a.tee_timestamp + k * 2000000000) % u128_mod;
  drand_round = a.drand_round;
}

-- The context of a step: labels of the agent, the task and its input, and constants.
pub record IsStepRoot (crypto : Crypto) (id : Bytes) (task : AgentTask) (r : ExecutionContextRoot)
    : Type 0 where
  pub agent : r.weights_hash ≡ crypto.sha256 (text "agent:" ++ id)
  pub tokenizer : r.tokenizer_hash ≡ crypto.sha256 (text "orchestrator/v1")
  pub prompt : r.system_prompt_hash ≡ crypto.sha256 (text "task:" ++ decimal task.task_id)
  pub sampling :
      r.sampling_params
      ≡ record { temperature = 0; top_k = 1; top_p = 0x3f800000; seed = task.task_id }
  pub runtime : r.runtime_version ≡ crypto.sha256 (text "rust-orchestrator-v1")
  pub attention : r.attention_impl_id ≡ flash_attention2
  pub precision : r.precision_mode ≡ bf16
  pub config : r.inference_config ≡ record {
    max_tokens = 0;
    stop_sequences_root = crypto.sha256 (text "none");
    penalty_params_root = crypto.sha256 (text "none");
  }
  pub input : r.input_manifest_root ≡ crypto.sha256 (text "input:" ++ debug_list task.input)
  pub cache : r.kv_cache_root ≡ none

-- The receipt of a step with this output, at an anchor: of its context, and signed.
pub record IsReceipt (crypto : Crypto) (o : Orchestrator) (task : AgentTask) (agent : Agent)
    (output : Bytes) (a : TripleAnchor) (c : FreshnessCommitment) : Type 0 where
  pub root : ExecutionContextRoot
  pub step : IsStepRoot crypto agent.identity task root
  pub context : c.context_root ≡ merkle_root crypto root
  pub clocks : c.anchor ≡ a
  pub output_bound : c.output_hash ≡ crypto.sha256 (text "agent-output-v1" ++ output)
  pub key : c.public_key ≡ crypto.verifying_key o.committer.signing_key
  pub signature : c.signature ≡ crypto.sign o.committer.signing_key (signing_digest crypto c)

-- One after another.
abbrev pub joined : List Bytes → Bytes
joined [] = []
joined (b ∷ bs) = b ++ joined bs

module _ (crypto : Crypto) (o : Orchestrator) (task : AgentTask) where
  -- Agents that all return, with the commitments of their steps: from an anchor and a session to
  -- those behind the last step.
  pub data Ran
      : List Agent
        → TripleAnchor
        → Session
        → List FreshnessCommitment
        → TripleAnchor
        → Session
        → Type 0 where
    idle : (a : TripleAnchor) (s : Session) → Ran [] a s [] a s
    step :
        (agent : Agent) (a : TripleAnchor) (s : Session) (r : AgentResult) (after : Session)
        (c : FreshnessCommitment) {agents : List Agent} {cs : List FreshnessCommitment}
        {last : TripleAnchor} {final : Session}
        → run_agent_with_retry o agent task a s ≡ (ok r, after)
        → IsReceipt crypto o task agent r.output a c
        → Ran agents (moved 1 a) (on_event (agent_succeeded agent.identity) after) cs last final
        → Ran (agent ∷ agents) a s (c ∷ cs) last final

  -- The two ends of a run, for the agents that are left and the commitments so far.
  pub data Stops (cs : List FreshnessCommitment) (a : TripleAnchor) (s : Session)
      : List Agent → OrchestrationOutcome → Session → Type 0 where
    completes :
        Stops cs a s []
          (complete (record {
            task_id = task.task_id;
            commitments = cs;
            chain_hash =
                crypto.sha256
                  (text "orchestration-chain-v1" ++ joined (map (signing_digest crypto) cs));
            final_anchor = a;
          }))
          (on_event (orchestrator_complete (length cs)) s)
    breaks :
        (agent : Agent) (e : AgentError) (after : Session) {agents : List Agent}
        → run_agent_with_retry o agent task a s ≡ (err e, after)
        → Stops cs a s
            (agent ∷ agents)
            (failed agent.identity (debug_error e) cs)
            (on_event (agent_failed agent.identity (debug_error e)) after)

  -- A run of these agents that adds to `earlier`.
  pub record Runs (agents : List Agent) (earlier : List FreshnessCommitment) (a : TripleAnchor)
      (s : Session) (outcome : OrchestrationOutcome) (final : Session) : Type 0 where
    pub finished : List Agent
    pub left : List Agent
    pub split : agents ≡ finished ++ left
    pub receipts : List FreshnessCommitment
    pub anchor : TripleAnchor
    pub session : Session
    pub ran : Ran finished a s receipts anchor session
    pub stops : Stops (earlier ++ receipts) anchor session left outcome final
