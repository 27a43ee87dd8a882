-- ===== src/Orchestrator/Tests.antt =====
-- examples/multi_agent_orchestrator.rs: runs of the demo.
use proof_of_context_impl.Prelude.{
  ℕ, ◌+◌, ◌*◌, ◌^◌, ◌≤◌, ◌<◌, ◌≡◌, ◌↔◌, ◌⊎◌, refl, Bool, true, false, Option, none, some, List, [],
  ◌∷◌, ◌++◌, arith, map, length,
}
use proof_of_context_impl.Prelude.Bytes.{Bytes, text, cmp}
use proof_of_context_impl.Prelude.Word.{le_bytes}
use proof_of_context_impl.Prelude.Decimal.{
  decimal, digits, debug_list, debug_items, debug_text, escapes, escape,
}
use proof_of_context_impl.Crypto.{CollisionAmong}
use proof_of_context_impl.Fixtures.{crypto, crypto-IsCrypto, committer, anchor, anchor-IsAnchor}
use proof_of_context_impl.SortedMap
use proof_of_context_impl.Context.{merkle_root}
use proof_of_context_impl.Mock.Committer.{commit}
use proof_of_context_impl.Orchestrator.{
  AgentTask, Agent, Cells, Event, agent_started, agent_retrying, agent_succeeded, agent_failed,
  orchestrator_complete, Orchestrator, OrchestrationOutcome, complete, Session, new,
}
use proof_of_context_impl.Orchestrator.Agents.{
  OraclePriceAgent, DecisionAgent, new_oracle, permanent_oracle, oracle_price_agent, decision_agent,
  settlement_agent, oracle_execute, decision_execute, settlement_execute, settlement_hash,
}
use proof_of_context_impl.Orchestrator.Steps.{build_step_root}
use proof_of_context_impl.Orchestrator.Pipeline.{run, run_agent_with_retry, started, debug_error}
use proof_of_context_impl.Orchestrator.Retry.{Retried, trace, run_agent_with_retry_lem}
use proof_of_context_impl.Orchestrator.Backoff.{total, doubling, run_agent_with_retry-sleeps}
use proof_of_context_impl.Orchestrator.Run.{Ends, run_lem}
use proof_of_context_impl.Orchestrator.Receipts.{Receipted, receipts, is_complete, run-expected}
use proof_of_context_impl.Orchestrator.Binding.{IsTask}
use proof_of_context_impl.Orchestrator.Audit.{HashesEither, chain_hash-binds_run}
use proof_of_context_impl.Orchestrator.Delivery.{Delivers, run-Delivers, run-completes_iff}

abbrev task : AgentTask
task = record { task_id = 42; input = text "BTC" }

task-IsTask : IsTask task
task-IsTask = record { id_range = omega arith; input_bytes = omega arith }

abbrev no_cells : Cells
no_cells address = 7

-- an oracle agent with two failures to go
abbrev flaky : OraclePriceAgent
flaky = (new_oracle 2 0 no_cells).0

abbrev down : OraclePriceAgent
down = (permanent_oracle 0 no_cells).0

abbrev decision : DecisionAgent
decision = record { threshold_e6 = 20000000000 }

abbrev pipeline : OraclePriceAgent → Orchestrator
pipeline oracle =
    new (oracle_price_agent oracle ∷ decision_agent decision ∷ settlement_agent crypto ∷ [])
      committer

abbrev cells : Cells
cells = (new_oracle 2 0 no_cells).1

-- what a run shows
abbrev shown : Option (OrchestrationOutcome × Session) → Option (Bool × List Event × List ℕ)
shown none = none
shown (some (outcome, final)) = some (is_complete outcome, final.events, final.sleeps)

-- the second scenario of the demo
retries_then_success :
    shown (run crypto (pipeline flaky) task anchor cells)
    ≡ some (
      true,
      agent_started (text "oracle-price") 1
          ∷ agent_retrying (text "oracle-price") 1 (text "oracle timeout (attempt 1)")
          ∷ agent_started (text "oracle-price") 2
          ∷ agent_retrying (text "oracle-price") 2 (text "oracle timeout (attempt 2)")
          ∷ agent_started (text "oracle-price") 3
          ∷ agent_succeeded (text "oracle-price")
          ∷ agent_started (text "decision") 1
          ∷ agent_succeeded (text "decision")
          ∷ agent_started (text "settlement") 1
          ∷ agent_succeeded (text "settlement")
          ∷ orchestrator_complete 3
          ∷ [],
      50 ∷ 100 ∷ [],
    )
unfolding run oracle_execute decision_execute settlement_execute settlement_hash SortedMap.get
    SortedMap.insert cmp le_bytes decimal digits commit
retries_then_success = refl

-- the third
permanent_failure :
    shown (run crypto (pipeline down) task anchor cells)
    ≡ some (
      false,
      agent_started (text "oracle-price") 1
          ∷ agent_failed (text "oracle-price") (text "Permanent(\"oracle endpoint unreachable\")")
          ∷ [],
      [],
    )
unfolding run oracle_execute debug_error debug_text escapes escape
permanent_failure = refl

shown_input : debug_list (text "BTC") ≡ text "[66, 84, 67]"
unfolding debug_list decimal digits debug_items
shown_input = refl

run_lem_example :
    Ends crypto
      (pipeline flaky)
      task
      (pipeline flaky).agents
      []
      anchor
      (started cells)
      (run crypto (pipeline flaky) task anchor cells)
run_lem_example = run_lem crypto (pipeline flaky) task anchor cells

run_agent_with_retry_lem_example :
    Retried
      (pipeline flaky)
      (oracle_price_agent flaky)
      task
      anchor
      3
      1
      (started cells)
      (run_agent_with_retry
        (pipeline flaky)
        (oracle_price_agent flaky)
        task
        anchor
        (started cells)).0
      (run_agent_with_retry
        (pipeline flaky)
        (oracle_price_agent flaky)
        task
        anchor
        (started cells)).1
run_agent_with_retry_lem_example =
    run_agent_with_retry_lem (pipeline flaky) (oracle_price_agent flaky) task anchor (started cells)
      (omega arith)

-- the oracle agent's attempts in the second scenario
abbrev attempts : Session
attempts =
    (run_agent_with_retry (pipeline flaky) (oracle_price_agent flaky) task anchor (started cells)).1

run_agent_with_retry-sleeps_example :
    (errors : List Bytes) × (length errors ≤ 2)
    × (attempts.events ≡ [] ++ trace (text "oracle-price") 1 errors)
    × (attempts.sleeps ≡ [] ++ doubling 50 (length errors))
    × (total (doubling 50 (length errors)) + 50 ≡ 50 * 2 ^ length errors)
run_agent_with_retry-sleeps_example =
    run_agent_with_retry-sleeps (pipeline flaky) (oracle_price_agent flaky) task anchor
      (started cells) 2 refl (omega arith)

run-Delivers_example : Delivers crypto (pipeline flaky) task flaky decision anchor cells
run-Delivers_example =
    run-Delivers crypto (pipeline flaky) task flaky decision anchor cells refl refl (omega arith)
      (omega arith) (omega arith)

-- what that run ends with
abbrev delivered : Delivers crypto (pipeline flaky) task flaky decision anchor cells
delivered =
    run-Delivers crypto (pipeline flaky) task flaky decision anchor cells refl refl (omega arith)
      (omega arith) (omega arith)

run-completes_iff_example : (is_complete (complete delivered.receipt) ≡ true) ↔ (
    (flaky.permanent_failure ≡ false)
    × (flaky.flakiness_seed < cells flaky.failure_count + (pipeline flaky).max_retries))
run-completes_iff_example =
    run-completes_iff crypto (pipeline flaky) task flaky decision anchor cells
      (complete delivered.receipt) delivered.final refl (omega arith) (omega arith) delivered.ended

run-expected_example :
    (finished : List Agent) × (left : List Agent) × ((pipeline flaky).agents ≡ finished ++ left)
    × Receipted crypto task anchor 0 finished (receipts (complete delivered.receipt))
    × ((is_complete (complete delivered.receipt) ≡ true) ↔ (left ≡ []))
run-expected_example =
    run-expected crypto (pipeline flaky) task anchor cells (complete delivered.receipt)
      delivered.final anchor-IsAnchor delivered.ended

chain_hash-binds_run_example :
    ((map (λ (g : Agent). g.identity) (pipeline flaky).agents
        ≡ map (λ (g : Agent). g.identity) (pipeline flaky).agents)
      × (((pipeline flaky).agents ≡ []) ⊎ ((task ≡ task) × (anchor ≡ anchor))))
    ⊎ CollisionAmong crypto (
        HashesEither crypto
          (pipeline flaky)
          (pipeline flaky)
          task
          task
          delivered.receipt
          delivered.receipt)
chain_hash-binds_run_example =
    chain_hash-binds_run crypto crypto-IsCrypto (pipeline flaky) (pipeline flaky) task task anchor
      anchor cells cells delivered.receipt delivered.receipt delivered.final delivered.final
      task-IsTask task-IsTask anchor-IsAnchor anchor-IsAnchor delivered.ended delivered.ended refl

-- the root does not depend on the output
one_step :
    merkle_root crypto (build_step_root crypto (text "decision") task (1 ∷ []))
    ≡ merkle_root crypto (build_step_root crypto (text "decision") task (0 ∷ []))
unfolding build_step_root
one_step = refl
