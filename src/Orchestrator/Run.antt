-- ===== src/Orchestrator/Run.antt =====
-- examples/multi_agent_orchestrator.rs: `run` as a sequence of steps, of which the first failure is
-- the last.
use proof_of_context_impl.Prelude.{
  ◌≡◌, refl, ◌∙◌, ap, Option, some, List, [], ◌∷◌, ◌++◌, append-nil, append_assoc, subst, map,
}
use proof_of_context_impl.Prelude.Bytes.{text}
use proof_of_context_impl.Crypto.{Crypto}
use proof_of_context_impl.Error.{Result, ok, err}
use proof_of_context_impl.Anchor.{TripleAnchor}
use proof_of_context_impl.Commitment.{FreshnessCommitment, signing_preimage, signing_digest}
use proof_of_context_impl.Context.{merkle_root}
use proof_of_context_impl.Mock.Committer.{commit}
use proof_of_context_impl.Orchestrator.{
  AgentTask, AgentResult, AgentError, Agent, Session, on_event, agent_succeeded, agent_failed,
  Orchestrator, OrchestrationOutcome, failed, Cells,
}
use proof_of_context_impl.Orchestrator.Steps.{
  build_step_root, hash_output, signing_digests, compute_chain_hash,
}
use proof_of_context_impl.Orchestrator.Trace.{
  moved, IsReceipt, joined, Ran, idle, step, completes, breaks, Runs,
}
use proof_of_context_impl.Orchestrator.Pipeline.{
  run_agent_with_retry, next_anchor, debug_error, commit_step, finish_agent, run_from, started, run,
}

module _ (crypto : Crypto) (o : Orchestrator) (task : AgentTask) where
  -- What an agent's attempts end with, with the equation.
  data AgentRun (p : Result AgentError AgentResult × Session) : Type 0 where
    returns : (r : AgentResult) (after : Session) → p ≡ (ok r, after) → AgentRun p
    fails : (e : AgentError) (after : Session) → p ≡ (err e, after) → AgentRun p

  agent_run : (p : Result AgentError AgentResult × Session) → AgentRun p
  agent_run (ok r, after) = returns r after refl
  agent_run (err e, after) = fails e after refl

  -- The committer does not fail, and makes the receipt of the step.
  commit_step-ok :
      (agent : Agent) (r : AgentResult) (a : TripleAnchor)
      → (c : FreshnessCommitment) × (commit_step crypto o agent task r.output a ≡ ok c)
        × IsReceipt crypto o task agent r.output a c
  unfolding commit_step commit build_step_root hash_output signing_digest signing_preimage
      merkle_root
  commit_step-ok agent r a = (
    _,
    refl,
    record {
      root = build_step_root crypto agent.identity task r.output;
      step = record {
        agent = refl;
        tokenizer = refl;
        prompt = refl;
        sampling = refl;
        runtime = refl;
        attention = refl;
        precision = refl;
        config = refl;
        input = refl;
        cache = refl;
      };
      context = refl;
      clocks = refl;
      output_bound = refl;
      key = refl;
      signature = refl;
    },
  )

  next_anchor-moved : (a : TripleAnchor) → next_anchor a ≡ moved 1 a
  unfolding next_anchor
  next_anchor-moved a = refl

  chain-joined :
      (cs : List FreshnessCommitment)
      → signing_digests crypto cs ≡ joined (map (signing_digest crypto) cs)
  unfolding signing_digests
  chain-joined [] = refl
  chain-joined (c ∷ cs) = ap (λ t. signing_digest crypto c ++ t) (chain-joined cs)

  pub chain_hash-eq :
      (cs : List FreshnessCommitment)
      → compute_chain_hash crypto cs
        ≡ crypto.sha256 (text "orchestration-chain-v1" ++ joined (map (signing_digest crypto) cs))
  unfolding compute_chain_hash
  chain_hash-eq cs = ap (λ t. crypto.sha256 (text "orchestration-chain-v1" ++ t)) (chain-joined cs)

  finish_agent-ok :
      (agent : Agent) (earlier : List FreshnessCommitment) (a : TripleAnchor) (r : AgentResult)
      (after : Session) (c : FreshnessCommitment)
      (again : FreshnessCommitment → Session → Option (OrchestrationOutcome × Session))
      → commit_step crypto o agent task r.output a ≡ ok c
      → finish_agent crypto o agent task earlier a again (ok r, after)
        ≡ again c (on_event (agent_succeeded agent.identity) after)
  unfolding finish_agent
  finish_agent-ok agent earlier a r after c again commits = rw (commits, finish_agent) refl

  -- A run that ends, with what it ends with.
  abbrev pub Ends :
      List Agent
      → List FreshnessCommitment
      → TripleAnchor
      → Session
      → Option (OrchestrationOutcome × Session)
      → Type 0
  Ends agents earlier a s run =
      (outcome : OrchestrationOutcome) × (final : Session) × (run ≡ some (outcome, final))
      × Runs crypto o task agents earlier a s outcome final

  -- One more step in front.
  longer :
      (agent : Agent) (agents : List Agent) (earlier : List FreshnessCommitment) (a : TripleAnchor)
      (s : Session) (r : AgentResult) (after : Session) (c : FreshnessCommitment)
      {outcome : OrchestrationOutcome} {final : Session}
      → run_agent_with_retry o agent task a s ≡ (ok r, after)
      → IsReceipt crypto o task agent r.output a c
      → Runs crypto o task agents
          (earlier ++ c ∷ [])
          (next_anchor a)
          (on_event (agent_succeeded agent.identity) after)
          outcome
          final
      → Runs crypto o task (agent ∷ agents) earlier a s outcome final
  longer agent agents earlier a s r after c attempt receipt rest = record {
    finished = agent ∷ rest.finished;
    left = rest.left;
    split = ap (λ t. agent ∷ t) rest.split;
    receipts = c ∷ rest.receipts;
    anchor = rest.anchor;
    session = rest.session;
    ran = step agent a s r after c attempt receipt (
        subst
          (λ b.
            Ran crypto o task rest.finished b (on_event (agent_succeeded agent.identity) after)
              rest.receipts rest.anchor rest.session)
          (next_anchor-moved a) rest.ran);
    stops = rw (← append_assoc earlier (c ∷ []) rest.receipts) rest.stops;
  }

  -- One agent that returns, or fails, in front of the others.
  pub run_from-step :
      (agent : Agent) (agents : List Agent) (earlier : List FreshnessCommitment) (a : TripleAnchor)
      (s : Session) (r : AgentResult) (after : Session)
      → run_agent_with_retry o agent task a s ≡ (ok r, after)
      → (c : FreshnessCommitment) × IsReceipt crypto o task agent r.output a c
        × (run_from crypto o task (agent ∷ agents) earlier a s
            ≡ run_from crypto o task agents
                (earlier ++ c ∷ [])
                (next_anchor a)
                (on_event (agent_succeeded agent.identity) after))
  unfolding run_from
  run_from-step agent agents earlier a s r after attempt =
      let (c, commits, receipt) = commit_step-ok agent r a in
      (
        c,
        receipt,
        rw attempt (
            finish_agent-ok agent earlier a r after c
              (λ made later.
                run_from crypto o task agents (earlier ++ made ∷ []) (next_anchor a) later)
              commits),
      )

  pub run_from-fails :
      (agent : Agent) (agents : List Agent) (earlier : List FreshnessCommitment) (a : TripleAnchor)
      (s : Session) (e : AgentError) (after : Session)
      → run_agent_with_retry o agent task a s ≡ (err e, after)
      → run_from crypto o task (agent ∷ agents) earlier a s
        ≡ some (
          failed agent.identity (debug_error e) earlier,
          on_event (agent_failed agent.identity (debug_error e)) after,
        )
  unfolding run_from
  run_from-fails agent agents earlier a s e after attempt = rw attempt refl

  run_from_lem :
      (agents : List Agent) (earlier : List FreshnessCommitment) (a : TripleAnchor) (s : Session)
      → Ends agents earlier a s (run_from crypto o task agents earlier a s)
  unfolding run_from
  run_from_lem [] earlier a s = (
    _,
    _,
    refl,
    record {
      finished = [];
      left = [];
      split = refl;
      receipts = [];
      anchor = a;
      session = s;
      ran = idle a s;
      stops = rw (append-nil, chain_hash-eq earlier) completes;
    },
  )
  run_from_lem (agent ∷ agents) earlier a s =
      elim (agent_run (run_agent_with_retry o agent task a s)) [
        | returns r after attempt ↦
            let (c, receipt, next) = run_from-step agent agents earlier a s r after attempt in
            let (outcome, final, e, rest) =
              run_from_lem agents (earlier ++ c ∷ []) (next_anchor a)
                (on_event (agent_succeeded agent.identity) after) in
            (
              outcome,
              final,
              next ∙ e,
              longer agent agents earlier a s r after c attempt receipt rest,
            )
        | fails e after attempt ↦ (
          failed agent.identity (debug_error e) earlier,
          on_event (agent_failed agent.identity (debug_error e)) after,
          rw attempt refl,
          record {
            finished = [];
            left = agent ∷ agents;
            split = refl;
            receipts = [];
            anchor = a;
            session = s;
            ran = idle a s;
            stops = rw append-nil (breaks agent e after attempt);
          },
        )
      ]

  -- A run never panics and ends: a beginning of the agents returns one after another, each from the
  -- anchor one block and two seconds behind the one before and in the world that the ones before
  -- left, each with a receipt: a commitment to the context that labels the agent, the task and its
  -- input, to that anchor and to the output, signed with the committer's key. Either these are all agents, and the outcome is
  -- complete with the hash of the receipts' digests in order, or the next one failed, the outcome names it and its error,
  -- and holds the commitments so far; no agent behind it is run.
  pub run_lem :
      (start : TripleAnchor) (cells : Cells)
      → Ends o.agents [] start (started cells) (run crypto o task start cells)
  unfolding run
  run_lem start cells = run_from_lem o.agents [] start (started cells)
