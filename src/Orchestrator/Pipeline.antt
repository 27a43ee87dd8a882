-- ===== src/Orchestrator/Pipeline.antt =====
-- examples/multi_agent_orchestrator.rs: the retry loop and the pipeline.
use proof_of_context_impl.Prelude.{
  ℕ, zero, suc, ◌+◌, ◌-◌, ◌*◌, ◌%◌, ◌^◌, Option, none, some, List, [], ◌∷◌, ◌++◌, ltb, length,
  if◌then◌else◌,
}
use proof_of_context_impl.Prelude.Bytes.{Bytes, text}
use proof_of_context_impl.Prelude.Word.{u64_mod, u128_mod, wrapping_add}
use proof_of_context_impl.Prelude.Decimal.{debug_text}
use proof_of_context_impl.Crypto.{Crypto}
use proof_of_context_impl.Error.{PocError, Result, ok, err}
use proof_of_context_impl.Anchor.{TripleAnchor}
use proof_of_context_impl.Commitment.{FreshnessCommitment}
use proof_of_context_impl.Mock.Committer.{commit}
use proof_of_context_impl.Orchestrator.{
  AgentTask, AgentResult, AgentError, transient, permanent, Agent, agent_started, agent_retrying,
  agent_failed, agent_succeeded, orchestrator_complete, Session, on_event, sleep,
  OrchestrationOutcome, complete, failed, Orchestrator, new_memory, Cells,
}
use proof_of_context_impl.Orchestrator.Steps.{build_step_root, hash_output, compute_chain_hash}

-- agent.execute(task, mem, anchor)
unfoldable pub execute :
    Agent → AgentTask → TripleAnchor → Session → Result AgentError AgentResult × Session
execute agent task anchor s =
    let (result, world) = agent.execute task anchor s.world in (result, record s { world = world })

-- The power and the product wrap, as in a release build.
unfoldable pub backoff_ms : ℕ → ℕ → ℕ
backoff_ms base attempt = (base * (2 ^ (attempt - 1) % u64_mod)) % u64_mod

-- `last_transient.unwrap_or(...)`
abbrev pub or_unknown : Option AgentError → AgentError
or_unknown none = permanent (text "unknown")
or_unknown (some e) = e

-- What precedes the next attempt.
unfoldable pub back_off : Orchestrator → Agent → ℕ → Bytes → Session → Session
unfolding backoff_ms
back_off o agent attempt e s =
    sleep (backoff_ms o.backoff_base_ms attempt)
      (on_event (agent_retrying agent.identity attempt e) s)

-- The `match` on what an attempt returned; `again` is the next round of the loop.
unfoldable pub conclude :
    ℕ
    → ℕ
    → (Bytes → Session → Result AgentError AgentResult × Session)
    → Result AgentError AgentResult × Session
    → Result AgentError AgentResult × Session
conclude max_retries attempt again (ok res, s) = (ok res, s)
conclude max_retries attempt again (err (permanent e), s) = (err (permanent e), s)
conclude max_retries attempt again (err (transient e), s) =
    if ltb attempt max_retries then again e s else (err (transient e), s)

-- The loop of run_agent_with_retry at `attempt`, with so many rounds to go.
unfoldable pub retry_from :
    Orchestrator
    → Agent
    → AgentTask
    → TripleAnchor
    → ℕ
    → ℕ
    → Option AgentError
    → Session
    → Result AgentError AgentResult × Session
unfolding back_off conclude
retry_from o agent task anchor zero attempt last_transient s = (err (or_unknown last_transient), s)
retry_from o agent task anchor (suc rounds) attempt last_transient s =
    conclude o.max_retries attempt
      (λ e after.
        retry_from o agent task anchor rounds (suc attempt) (some (transient e))
          (back_off o agent attempt e after))
      (execute agent task anchor (on_event (agent_started agent.identity attempt) s))

unfoldable pub run_agent_with_retry :
    Orchestrator
    → Agent
    → AgentTask
    → TripleAnchor
    → Session
    → Result AgentError AgentResult × Session
unfolding retry_from
run_agent_with_retry o agent task anchor s = retry_from o agent task anchor o.max_retries 1 none s

-- The anchor of the next agent, one block and two seconds later.
unfoldable pub next_anchor : TripleAnchor → TripleAnchor
next_anchor a = record {
  block_height = wrapping_add a.block_height 1;
  tee_timestamp = (a.tee_timestamp + 2000000000) % u128_mod;
  drand_round = a.drand_round;
}

-- `format!("{:?}", e)`
unfoldable pub debug_error : AgentError → Bytes
debug_error (transient e) = text "Transient(" ++ (debug_text e ++ text ")")
debug_error (permanent e) = text "Permanent(" ++ (debug_text e ++ text ")")

-- The commitment of a step that returned this output.
unfoldable pub commit_step :
    Crypto
    → Orchestrator
    → Agent
    → AgentTask
    → Bytes
    → TripleAnchor
    → Result PocError FreshnessCommitment
commit_step crypto o agent task output anchor =
    commit crypto o.committer (build_step_root crypto agent.identity task output)
      (hash_output crypto output) anchor

-- The `match` on what an agent returned; `again` runs the agents behind it. `none` is the panic of
-- `expect`.
unfoldable pub finish_agent :
    Crypto
    → Orchestrator
    → Agent
    → AgentTask
    → List FreshnessCommitment
    → TripleAnchor
    → (FreshnessCommitment → Session → Option (OrchestrationOutcome × Session))
    → Result AgentError AgentResult × Session
    → Option (OrchestrationOutcome × Session)
finish_agent crypto o agent task commitments current again (ok r, s) =
    elim (commit_step crypto o agent task r.output current) [
      | ok commitment ↦ again commitment (on_event (agent_succeeded agent.identity) s)
      | err e ↦ none
    ]
finish_agent crypto o agent task commitments current again (err e, s) = some (
  failed agent.identity (debug_error e) commitments,
  on_event (agent_failed agent.identity (debug_error e)) s,
)

-- The loop of `run` over the agents that are left.
unfoldable pub run_from :
    Crypto
    → Orchestrator
    → AgentTask
    → List Agent
    → List FreshnessCommitment
    → TripleAnchor
    → Session
    → Option (OrchestrationOutcome × Session)
unfolding finish_agent
run_from crypto o task [] commitments current s = some (
  complete (record {
    task_id = task.task_id;
    commitments = commitments;
    chain_hash = compute_chain_hash crypto commitments;
    final_anchor = current;
  }),
  on_event (orchestrator_complete (length commitments)) s,
)
run_from crypto o task (agent ∷ agents) commitments current s =
    finish_agent crypto o agent task commitments current
      (λ commitment after.
        run_from crypto o task agents (commitments ++ commitment ∷ []) (next_anchor current) after)
      (run_agent_with_retry o agent task current s)

-- What a run starts with: no memory, and the agents' cells as they are.
abbrev pub started : Cells → Session
started cells = record {
  world = record { memory = new_memory; cells = cells };
  events = [];
  sleeps = [];
}

-- Orchestrator::run
unfoldable pub run :
    Crypto
    → Orchestrator
    → AgentTask
    → TripleAnchor
    → Cells
    → Option (OrchestrationOutcome × Session)
unfolding run_from run_agent_with_retry execute commit_step
run crypto o task start_anchor cells =
    run_from crypto o task o.agents [] start_anchor (started cells)
