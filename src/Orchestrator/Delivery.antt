-- ===== src/Orchestrator/Delivery.antt =====
-- examples/multi_agent_orchestrator.rs: the pipeline of the three agents, from end to end.
use proof_of_context_impl.Prelude.{
  ℕ, ◌+◌, ◌-◌, ◌<◌, ◌≡◌, ◌≢◌, refl, ap, sym, ◌∙◌, ◌↔◌, true, false, some, List, [], ◌∷◌, arith,
  length, some-injective,
}
use proof_of_context_impl.Prelude.Bytes.{Bytes, text, cmp}
use proof_of_context_impl.Prelude.Word.{u32_mod, le_bytes}
use proof_of_context_impl.Crypto.{Crypto}
use proof_of_context_impl.Error.{ok, err, Outcome, outcome, returned}
use proof_of_context_impl.Anchor.{TripleAnchor}
use proof_of_context_impl.Commitment.{FreshnessCommitment}
use proof_of_context_impl.SortedMap.Laws.{get-insert, get-insert_self}
use proof_of_context_impl.Orchestrator.{
  AgentTask, AgentResult, transient, Agent, Session, Cells, Orchestrator, OrchestrationOutcome,
  OrchestrationReceipt, complete, read, on_event, agent_succeeded, orchestrator_complete,
}
use proof_of_context_impl.Orchestrator.Steps.{compute_chain_hash}
use proof_of_context_impl.Orchestrator.Agents.{
  OraclePriceAgent, DecisionAgent, settlement_hash, price_e6, result, oracle_price_agent,
  decision_agent, settlement_agent,
}
use proof_of_context_impl.Orchestrator.AgentSteps.{
  oracle_answers, oracle_spent, signal, signal_byte, oracle_returns, decision_returns,
  settlement_returns, Flaked, oracle_flaky,
}
use proof_of_context_impl.Orchestrator.Retry.{
  start, run_agent_with_retry_decides, run_agent_with_retry_lem,
}
use proof_of_context_impl.Orchestrator.Pipeline.{
  run_agent_with_retry, run_from, run, next_anchor, started,
}
use proof_of_context_impl.Orchestrator.Receipts.{is_complete}
use proof_of_context_impl.Orchestrator.Run.{run_from-step, run_from-fails}

never_transient : {r : AgentResult} (e : Bytes) → ok r ≢ err (transient e)
never_transient e h = cc

module _ (crypto : Crypto) (o : Orchestrator) (task : AgentTask) where
  -- The oracle agent, after the failures that it has left.
  oracle_delivers :
      (self : OraclePriceAgent) (a : TripleAnchor) (s : Session)
      → self.permanent_failure ≡ false
      → self.flakiness_seed < u32_mod
      → self.flakiness_seed < s.world.cells self.failure_count + o.max_retries
      → 0 < o.max_retries
      → (r : AgentResult) × (after : Session) × (read (text "price_e6") after.world.memory
          ≡ some (le_bytes 8 price_e6))
        × (run_agent_with_retry o (oracle_price_agent self) task a s ≡ (ok r, after))
  oracle_delivers self a s up range few allowed =
      let left = self.flakiness_seed - s.world.cells self.failure_count in
      let f : Flaked task a self s.world left =
        oracle_flaky task a self s.world left up range (omega arith) in
      (
        _,
        _,
        get-insert_self (text "price_e6") (le_bytes 8 price_e6) f.spent.memory,
        run_agent_with_retry_decides o (oracle_price_agent self) task a s (omega (arith, f.count))
            f.failures (oracle_returns task a self f.spent up (omega (arith, f.reached)))
            never_transient,
      )

  decision_delivers :
      (self : DecisionAgent) (a : TripleAnchor) (s : Session)
      → 0 < o.max_retries
      → read (text "price_e6") s.world.memory ≡ some (le_bytes 8 price_e6)
      → (r : AgentResult) × (after : Session) × (read (text "signal") after.world.memory
          ≡ some (signal self))
        × (run_agent_with_retry o (decision_agent self) task a s ≡ (ok r, after))
  decision_delivers self a s allowed price = (
    _,
    _,
    get-insert_self (text "signal") (signal self) s.world.memory,
    run_agent_with_retry_decides o (decision_agent self) task a s allowed (start s.world)
        (decision_returns task a self s.world price) never_transient,
  )

  settlement_delivers :
      (x : ℕ) (a : TripleAnchor) (s : Session)
      → 0 < o.max_retries
      → read (text "signal") s.world.memory ≡ some (x ∷ [])
      → (r : AgentResult) × (after : Session) × (read (text "settlement_hash") after.world.memory
          ≡ some (settlement_hash crypto task (x ∷ [])))
        × (read (text "signal") after.world.memory ≡ some (x ∷ []))
        × (run_agent_with_retry o (settlement_agent crypto) task a s ≡ (ok r, after))
  unfolding cmp
  settlement_delivers x a s allowed there =
      let hash = settlement_hash crypto task (x ∷ []) in
      (
        _,
        _,
        get-insert_self (text "settlement_hash") hash s.world.memory,
        get-insert (text "settlement_hash") (text "signal") hash s.world.memory ∙ there,
        run_agent_with_retry_decides o (settlement_agent crypto) task a s allowed (start s.world)
            (settlement_returns task a crypto s.world x there) never_transient,
      )

  run_agents :
      (a : TripleAnchor) (cells : Cells) {agents : List Agent}
      → o.agents ≡ agents
      → run crypto o task a cells ≡ run_from crypto o task agents [] a (started cells)
  unfolding run
  run_agents a cells pipeline = ap (λ g. run_from crypto o task g [] a (started cells)) pipeline

  run_from-nil :
      (cs : List FreshnessCommitment) (a : TripleAnchor) (s : Session)
      → run_from crypto o task [] cs a s
        ≡ some (
          complete (record {
            task_id = task.task_id;
            commitments = cs;
            chain_hash = compute_chain_hash crypto cs;
            final_anchor = a;
          }),
          on_event (orchestrator_complete (length cs)) s,
        )
  unfolding run_from
  run_from-nil cs a s = refl

  -- What a run of the three agents with this oracle agent comes to.
  pub record Delivers (oracle : OraclePriceAgent) (decision : DecisionAgent) (a : TripleAnchor)
      (cells : Cells) : Type 0 where
    pub receipt : OrchestrationReceipt
    pub final : Session
    pub ended : run crypto o task a cells ≡ some (complete receipt, final)
    pub three : length receipt.commitments ≡ 3
    pub decided : read (text "signal") final.world.memory ≡ some (signal decision)
    pub settled :
        read (text "settlement_hash") final.world.memory
        ≡ some (settlement_hash crypto task (signal decision))

  -- The pipeline of the three agents completes whenever the oracle agent has fewer failures left than
  -- attempts are allowed: with three commitments, the signal of the price in the memory, and the
  -- settlement hash of that signal.
  pub run-Delivers :
      (oracle : OraclePriceAgent) (decision : DecisionAgent) (a : TripleAnchor) (cells : Cells)
      → o.agents
        ≡ oracle_price_agent oracle ∷ decision_agent decision ∷ settlement_agent crypto ∷ []
      → oracle.permanent_failure ≡ false
      → oracle.flakiness_seed < u32_mod
      → oracle.flakiness_seed < cells oracle.failure_count + o.max_retries
      → 0 < o.max_retries
      → Delivers oracle decision a cells
  run-Delivers oracle decision a cells pipeline up range few allowed =
      let (r1, s1, price, first) = oracle_delivers oracle a (started cells) up range few allowed in
      let (c1, _, e1) =
        run_from-step crypto o task (oracle_price_agent oracle)
          (decision_agent decision ∷ settlement_agent crypto ∷ []) [] a (started cells) r1 s1
          first in
      let s1' = on_event (agent_succeeded (text "oracle-price")) s1 in
      let a1 = next_anchor a in
      let (r2, s2, decided, second) = decision_delivers decision a1 s1' allowed price in
      let s2' = on_event (agent_succeeded (text "decision")) s2 in
      let (c2, _, e2) =
        run_from-step crypto o task (decision_agent decision) (settlement_agent crypto ∷ [])
          (c1 ∷ []) a1 s1' r2 s2 second in
      let (r3, s3, settled, kept, third) =
        settlement_delivers (signal_byte decision) (next_anchor a1) s2' allowed decided in
      let (c3, _, e3) =
        run_from-step crypto o task (settlement_agent crypto) [] (c1 ∷ c2 ∷ []) (next_anchor a1) s2'
          r3 s3 third in
      record {
        receipt = _;
        final = _;
        ended =
            run_agents a cells pipeline
            ∙ e1
            ∙ e2
            ∙ e3
            ∙ run_from-nil (c1 ∷ c2 ∷ c3 ∷ []) (next_anchor (next_anchor a1))
                (on_event (agent_succeeded (text "settlement")) s3);
        three = refl;
        decided = kept;
        settled = settled;
      }

  oracle_answer :
      (oracle : OraclePriceAgent) (a : TripleAnchor) (s : Session) {r : AgentResult}
      {after : Session}
      → 0 < o.max_retries
      → run_agent_with_retry o (oracle_price_agent oracle) task a s ≡ (ok r, after)
      → (oracle.permanent_failure ≡ false)
        × (oracle.flakiness_seed < s.world.cells oracle.failure_count + o.max_retries)
  oracle_answer oracle a s {r} {after} allowed answered =
      let tried = run_agent_with_retry_lem o (oracle_price_agent oracle) task a s allowed in
      let (up, spent) =
        oracle_answers task a oracle tried.before_last
          (tried.last ∙ ap (λ p. (p.0, p.1.world)) answered) in
      (up, omega (arith, spent, oracle_spent task a oracle tried.failures, tried.bounded))

  completed_answers :
      (oracle : OraclePriceAgent) (others : List Agent) (a : TripleAnchor) (cells : Cells)
      (outcome : OrchestrationOutcome) (final : Session)
      → o.agents ≡ oracle_price_agent oracle ∷ others
      → 0 < o.max_retries
      → run crypto o task a cells ≡ some (outcome, final)
      → is_complete outcome ≡ true
      → (oracle.permanent_failure ≡ false)
        × (oracle.flakiness_seed < cells oracle.failure_count + o.max_retries)
  completed_answers oracle others a cells result final pipeline allowed h done =
      let first = run_agent_with_retry o (oracle_price_agent oracle) task a (started cells) in
      elim (outcome first.0) [
        | returned r e ↦ oracle_answer oracle a (started cells) allowed (ap (λ x. (x, first.1)) e)
        | Outcome.failed x e ↦
            let ends =
              run_from-fails crypto o task (oracle_price_agent oracle) others [] a (started cells) x
                first.1 (ap (λ x. (x, first.1)) e) in
            let same = some-injective (sym h ∙ run_agents a cells pipeline ∙ ends) in
            absurd (cc (done, ap (λ p. is_complete p.0) same))
      ]

  -- Where an attempt is allowed at all, the pipeline of the three agents completes exactly when the
  -- oracle agent does not fail for good and has fewer failures left than attempts are allowed.
  pub run-completes_iff :
      (oracle : OraclePriceAgent) (decision : DecisionAgent) (a : TripleAnchor) (cells : Cells)
      (outcome : OrchestrationOutcome) (final : Session)
      → o.agents
        ≡ oracle_price_agent oracle ∷ decision_agent decision ∷ settlement_agent crypto ∷ []
      → oracle.flakiness_seed < u32_mod
      → 0 < o.max_retries
      → run crypto o task a cells ≡ some (outcome, final)
      → (is_complete outcome ≡ true) ↔ (
          (oracle.permanent_failure ≡ false)
          × (oracle.flakiness_seed < cells oracle.failure_count + o.max_retries))
  run-completes_iff oracle decision a cells outcome final pipeline range allowed h = (
    λ done.
        completed_answers oracle (decision_agent decision ∷ settlement_agent crypto ∷ []) a cells
          outcome final pipeline allowed h done,
    λ (up, few).
        let d = run-Delivers oracle decision a cells pipeline up range few allowed in
        let same : (complete d.receipt, d.final) ≡ (outcome, final) =
          some-injective (sym d.ended ∙ h) in
        rw (← ap (λ p. p.0) same) refl,
  )
