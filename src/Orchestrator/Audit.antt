-- ===== src/Orchestrator/Audit.antt =====
-- examples/multi_agent_orchestrator.rs: what the chain hash of a complete run says of the run.
use mathlib.Core.List.{Memᴰ}
use proof_of_context_impl.Prelude.{
  ◌≡◌, refl, ap, sym, ◌∙◌, ◌⊎◌, inl, inr, List, [], ◌∷◌, ◌++◌, map, All, some, arith, append-nil,
  subst, both, All-of_members,
}
use proof_of_context_impl.Prelude.Bytes.{Bytes, text, IsArray}
use proof_of_context_impl.Prelude.Decimal.{debug_list}
use proof_of_context_impl.Crypto.{Crypto, IsCrypto, CollisionAmong}
use proof_of_context_impl.Anchor.{TripleAnchor, IsAnchor}
use proof_of_context_impl.Context.{preimage, merkle_root}
use proof_of_context_impl.Commitment.{FreshnessCommitment}
use proof_of_context_impl.Commitment.Binding.{IsCommitment}
use proof_of_context_impl.Orchestrator.{
  AgentTask, Agent, Cells, Session, Orchestrator, OrchestrationOutcome, OrchestrationReceipt,
  complete, failed,
}
use proof_of_context_impl.Orchestrator.Steps.{build_step_root, signing_digests, compute_chain_hash}
use proof_of_context_impl.Orchestrator.Pipeline.{run}
use proof_of_context_impl.Orchestrator.Trace.{
  moved, IsReceipt, Ran, idle, step, Stops, completes, breaks,
}
use proof_of_context_impl.Orchestrator.Run.{chain_hash-eq}
use proof_of_context_impl.Orchestrator.Receipts.{
  expected, root_and_anchor, receipts-Stops, Ran-expected, complete_iff, run-Runs,
}
use proof_of_context_impl.Orchestrator.Binding.{
  IsTask, build_step_root-binds, compute_chain_hash-binds, signed, HashesStep, to_sign,
}

moved-IsAnchor : (a : TripleAnchor) → IsAnchor a → IsAnchor (moved 1 a)
moved-IsAnchor a v = record {
  block_range = omega arith;
  tee_range = omega arith;
  drand_range = v.drand_range;
}

-- What is hashed for a complete run: the digests of the receipts, the inputs of the digests, and for
-- each agent its context and the labels of its identity and of the input.
pub data Hashes (crypto : Crypto) (o : Orchestrator) (task : AgentTask) (r : OrchestrationReceipt)
    : Bytes → Type 0 where
  chain :
      Hashes crypto o task r (text "orchestration-chain-v1" ++ signing_digests crypto r.commitments)
  digest : {c : FreshnessCommitment} → Memᴰ c r.commitments → Hashes crypto o task r (to_sign c)
  label :
      {agent : Agent}
      → Memᴰ agent o.agents
      → Hashes crypto o task r (text "agent:" ++ agent.identity)
  input : Hashes crypto o task r (text "input:" ++ debug_list task.input)
  context :
      {agent : Agent}
      → Memᴰ agent o.agents
      → Hashes crypto o task r (preimage (build_step_root crypto agent.identity task []))

-- What is hashed for one of two runs.
abbrev pub HashesEither :
    Crypto
    → Orchestrator
    → Orchestrator
    → AgentTask
    → AgentTask
    → OrchestrationReceipt
    → OrchestrationReceipt
    → Bytes
    → Type 0
HashesEither crypto o o' task task' r r' m = Hashes crypto o task r m ⊎ Hashes crypto o' task' r' m

roots_of_signed :
    (cs ds : List FreshnessCommitment)
    → map signed cs ≡ map signed ds
    → map root_and_anchor cs ≡ map root_and_anchor ds
roots_of_signed [] [] h = refl
roots_of_signed [] (d ∷ ds) h = cc
roots_of_signed (c ∷ cs) [] h = cc
roots_of_signed (c ∷ cs) (d ∷ ds) h =
    let rest : map root_and_anchor cs ≡ map root_and_anchor ds = roots_of_signed cs ds (cc) in
    ground (arith, rest)

module _ (crypto : Crypto) (laws : IsCrypto crypto) where
  receipt-IsCommitment :
      (o : Orchestrator) (task : AgentTask) (agent : Agent) (output : Bytes) (a : TripleAnchor)
      (c : FreshnessCommitment)
      → IsAnchor a
      → IsReceipt crypto o task agent output a c
      → IsCommitment c
  unfolding merkle_root
  receipt-IsCommitment o task agent output a c v receipt = record {
    root = subst (IsArray 32) (sym receipt.context) (laws.digest_size _);
    clocks = subst IsAnchor (sym receipt.clocks) v;
    output = subst (IsArray 32) (sym receipt.output_bound) (laws.digest_size _);
  }

  Ran-IsCommitment :
      (o : Orchestrator) (task : AgentTask) {agents : List Agent} {a last : TripleAnchor}
      {s final : Session} {cs : List FreshnessCommitment}
      → IsAnchor a
      → Ran crypto o task agents a s cs last final
      → All IsCommitment cs
  Ran-IsCommitment o task v (idle a s) = tt
  Ran-IsCommitment o task v (step agent a s r after c attempt receipt rest) = (
    receipt-IsCommitment o task agent r.output a c v receipt,
    Ran-IsCommitment o task (moved-IsAnchor a v) rest,
  )

  -- The hash of a complete outcome is that of its receipts.
  abbrev IsSealed : OrchestrationOutcome → Type 0
  IsSealed (complete r) = r.chain_hash ≡ compute_chain_hash crypto r.commitments
  IsSealed (failed agent e cs) = Unit

  Stops-IsSealed :
      (o : Orchestrator) (task : AgentTask) {cs : List FreshnessCommitment} {a : TripleAnchor}
      {s final : Session} {agents : List Agent} {outcome : OrchestrationOutcome}
      → Stops crypto o task cs a s agents outcome final
      → IsSealed outcome
  Stops-IsSealed o task {cs = cs} completes = sym (chain_hash-eq crypto o task cs)
  Stops-IsSealed o task (breaks agent e after attempt) = tt

  -- Receipts that fit two pipelines.
  expected-binds :
      (Hashed : Bytes → Type 0) (task task' : AgentTask) (agents agents' : List Agent)
      (a a' : TripleAnchor)
      → All (λ (g : Agent). HashesStep crypto Hashed g.identity task) agents
      → All (λ (g : Agent). HashesStep crypto Hashed g.identity task') agents'
      → IsTask task
      → IsTask task'
      → expected crypto task agents a ≡ expected crypto task' agents' a'
      → ((map (λ (g : Agent). g.identity) agents ≡ map (λ (g : Agent). g.identity) agents')
          × ((agents ≡ []) ⊎ ((task ≡ task') × (a ≡ a'))))
        ⊎ CollisionAmong crypto Hashed
  expected-binds Hashed task task' [] [] a a' p q v w h = inl (refl, inl refl)
  expected-binds Hashed task task' [] (g ∷ gs) a a' p q v w h = absurd (cc h)
  expected-binds Hashed task task' (f ∷ fs) [] a a' p q v w h = absurd (cc h)
  expected-binds Hashed task task' (f ∷ fs) (g ∷ gs) a a' p q v w h =
      let clocks : a ≡ a' = cc in
      both
        (build_step_root-binds crypto laws Hashed f.identity g.identity task task' v w p.0 q.0 (cc))
        (expected-binds Hashed task task' fs gs (moved 1 a) (moved 1 a') p.1 q.1 v w (cc))
        (λ same rest. (cc (same.0, rest.0), inr (same.1, clocks)))

  -- What a complete run returns.
  whole_run :
      (o : Orchestrator) (task : AgentTask) (start : TripleAnchor) (cells : Cells)
      (r : OrchestrationReceipt) (final : Session)
      → IsAnchor start
      → run crypto o task start cells ≡ some (complete r, final)
      → (r.chain_hash ≡ compute_chain_hash crypto r.commitments)
        × All IsCommitment r.commitments
        × (map root_and_anchor r.commitments ≡ expected crypto task o.agents start)
  whole_run o task start cells r final v h =
      let runs = run-Runs crypto o task start cells h in
      let held : r.commitments ≡ runs.receipts = receipts-Stops crypto o task runs.stops in
      let none_left : runs.left ≡ [] = (complete_iff crypto o task runs.stops).0 refl in
      let all : o.agents ≡ runs.finished =
        runs.split ∙ ap (λ t. runs.finished ++ t) none_left ∙ append-nil runs.finished in
      (
        Stops-IsSealed o task runs.stops,
        rw held (Ran-IsCommitment o task v runs.ran),
        ap (map root_and_anchor) held
            ∙ Ran-expected crypto o task runs.ran
            ∙ ap (λ t. expected crypto task t start) (sym all),
      )

  steps_hashed :
      (Hashed : Bytes → Type 0) (o : Orchestrator) (task : AgentTask) (r : OrchestrationReceipt)
      → ((m : Bytes) → Hashes crypto o task r m → Hashed m)
      → All (λ (g : Agent). HashesStep crypto Hashed g.identity task) o.agents
  steps_hashed Hashed o task r known =
      All-of_members (λ (g : Agent). HashesStep crypto Hashed g.identity task) o.agents
        (λ g m. record {
          label = known _ (label m);
          shown_input = known _ input;
          context = known _ (context m);
        })

  -- Two complete runs with one chain hash, by whatever committers, ran agents of the same identities
  -- in the same order; where there is an agent at all, on the same task with the same input and
  -- from the same anchor. Otherwise two of the inputs hashed for the two runs are a collision of
  -- SHA-256.
  pub chain_hash-binds_run :
      (o o' : Orchestrator) (task task' : AgentTask) (start start' : TripleAnchor)
      (cells cells' : Cells) (r r' : OrchestrationReceipt) (final final' : Session)
      → IsTask task
      → IsTask task'
      → IsAnchor start
      → IsAnchor start'
      → run crypto o task start cells ≡ some (complete r, final)
      → run crypto o' task' start' cells' ≡ some (complete r', final')
      → r.chain_hash ≡ r'.chain_hash
      → ((map (λ (g : Agent). g.identity) o.agents ≡ map (λ (g : Agent). g.identity) o'.agents)
          × ((o.agents ≡ []) ⊎ ((task ≡ task') × (start ≡ start'))))
        ⊎ CollisionAmong crypto (HashesEither crypto o o' task task' r r')
  chain_hash-binds_run o o' task task' start start' cells cells' r r' final final' v w a b h h' e =
      let (sealed, clean, roots) = whole_run o task start cells r final a h in
      let (sealed', clean', roots') = whole_run o' task' start' cells' r' final' b h' in
      let Hashed : Bytes → Type 0 = HashesEither crypto o o' task task' r r' in
      elim (compute_chain_hash-binds crypto laws Hashed r.commitments r'.commitments clean clean'
        (All-of_members (λ c. Hashed (to_sign c)) r.commitments (λ c m. inl (digest m)))
        (All-of_members (λ c. Hashed (to_sign c)) r'.commitments (λ c m. inr (digest m)))
        (inl chain) (inr chain) (sym sealed ∙ e ∙ sealed')) [
          | inr k ↦ inr k
          | inl same ↦
              expected-binds Hashed task task' o.agents o'.agents start start'
                (steps_hashed Hashed o task r (λ _ m. inl m))
                (steps_hashed Hashed o' task' r' (λ _ m. inr m)) v w
                (sym roots ∙ roots_of_signed r.commitments r'.commitments same ∙ roots')
        ]
