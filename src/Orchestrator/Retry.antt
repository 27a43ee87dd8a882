-- ===== src/Orchestrator/Retry.antt =====
-- examples/multi_agent_orchestrator.rs: what the retry loop does, for any agent.
use proof_of_context_impl.Prelude.{
  ℕ, zero, suc, ◌+◌, ◌<◌, ◌≡◌, ◌≢◌, refl, sym, ◌∙◌, Option, none, some, List, [], ◌∷◌, ◌++◌, arith,
  length, append-nil, append_assoc, ltb, lt→ltb, Bool-cases, ltb→lt, ap, inl, inr,
}
use proof_of_context_impl.Prelude.Bytes.{Bytes, text}
use proof_of_context_impl.Error.{Result, ok, err}
use proof_of_context_impl.Anchor.{TripleAnchor}
use proof_of_context_impl.Orchestrator.{
  AgentTask, AgentResult, AgentError, transient, permanent, World, Agent, Event, agent_started,
  agent_retrying, Session, on_event, Orchestrator,
}
use proof_of_context_impl.Orchestrator.Pipeline.{
  execute, backoff_ms, back_off, retry_from, run_agent_with_retry,
}

-- Attempts in a row that end in a transient error, from one world to another.
pub data Fails (agent : Agent) (task : AgentTask) (anchor : TripleAnchor)
    : World → List Bytes → World → Type 0 where
  start : (w : World) → Fails agent task anchor w [] w
  again :
      (e : Bytes) (w w' : World) {es : List Bytes} {last : World}
      → agent.execute task anchor w ≡ (err (transient e), w')
      → Fails agent task anchor w' es last
      → Fails agent task anchor w (e ∷ es) last

-- The events of the attempts from number `attempt`: these failures, and one attempt more.
abbrev pub trace : Bytes → ℕ → List Bytes → List Event
trace id attempt [] = agent_started id attempt ∷ []
trace id attempt (e ∷ es) =
    agent_started id attempt ∷ agent_retrying id attempt e ∷ trace id (suc attempt) es

-- The sleeps between them.
abbrev pub backoffs : ℕ → ℕ → List Bytes → List ℕ
backoffs base attempt [] = []
backoffs base attempt (e ∷ es) = backoff_ms base attempt ∷ backoffs base (suc attempt) es

-- `rounds` attempts at most, the first with number `attempt`, lead from `s` to `after`.
pub record Retried (o : Orchestrator) (agent : Agent) (task : AgentTask) (anchor : TripleAnchor)
    (rounds attempt : ℕ) (s : Session) (result : Result AgentError AgentResult) (after : Session)
    : Type 0 where
  -- the errors of all attempts but the last
  pub errors : List Bytes
  pub before_last : World
  pub failures : Fails agent task anchor s.world errors before_last
  pub last : agent.execute task anchor before_last ≡ (result, after.world)
  pub bounded : length errors < rounds
  -- only the last attempt that is allowed may leave a transient error
  pub exhausted : (e : Bytes) → result ≡ err (transient e) → suc (length errors) ≡ rounds
  pub events : after.events ≡ s.events ++ trace agent.identity attempt errors
  pub sleeps : after.sleeps ≡ s.sleeps ++ backoffs o.backoff_base_ms attempt errors

module _ (o : Orchestrator) (agent : Agent) (task : AgentTask) (anchor : TripleAnchor) where
  -- An attempt that decides.
  decided :
      (rounds attempt : ℕ) (s : Session) (result : Result AgentError AgentResult) (w : World)
      → agent.execute task anchor s.world ≡ (result, w)
      → ((e : Bytes) → result ≡ err (transient e) → rounds ≡ 0)
      → Retried o agent task anchor
          (suc rounds)
          attempt
          s
          result
          (record (on_event (agent_started agent.identity attempt) s) { world = w })
  decided rounds attempt s result w run exhausted = record {
    errors = [];
    before_last = s.world;
    failures = start s.world;
    last = run;
    bounded = omega arith;
    exhausted = λ e h. ap suc (sym (exhausted e h));
    events = refl;
    sleeps = sym (append-nil s.sleeps);
  }

  -- A transient failure in front of more attempts.
  retried :
      (rounds attempt : ℕ) (s : Session) (e : Bytes) (w : World)
      {result : Result AgentError AgentResult} {after : Session}
      → agent.execute task anchor s.world ≡ (err (transient e), w)
      → Retried o agent task anchor rounds
          (suc attempt)
          (back_off o agent attempt e
            (record (on_event (agent_started agent.identity attempt) s) { world = w }))
          result
          after
      → Retried o agent task anchor (suc rounds) attempt s result after
  unfolding back_off
  retried rounds attempt s e w run r = record {
    errors = e ∷ r.errors;
    before_last = r.before_last;
    failures = again e s.world w run r.failures;
    last = r.last;
    bounded = omega (arith, r.bounded);
    exhausted = λ e h. ap suc (r.exhausted e h);
    events = r.events ∙ simp (append_assoc);
    sleeps = r.sleeps ∙ simp (append_assoc);
  }

  -- The three ends of an attempt, with the equation.
  data Attempt (run : Result AgentError AgentResult × World) : Type 0 where
    returns : (res : AgentResult) (w : World) → run ≡ (ok res, w) → Attempt run
    gives_up : (e : Bytes) (w : World) → run ≡ (err (permanent e), w) → Attempt run
    fails : (e : Bytes) (w : World) → run ≡ (err (transient e), w) → Attempt run

  ending : (run : Result AgentError AgentResult × World) → Attempt run
  ending (ok res, w) = returns res w refl
  ending (err (permanent e), w) = gives_up e w refl
  ending (err (transient e), w) = fails e w refl

  -- The session after an attempt with this end.
  executes :
      (s : Session) (attempt : ℕ) {result : Result AgentError AgentResult} {w : World}
      → agent.execute task anchor s.world ≡ (result, w)
      → execute agent task anchor (on_event (agent_started agent.identity attempt) s)
        ≡ (result, record (on_event (agent_started agent.identity attempt) s) { world = w })
  unfolding execute
  executes s attempt run =
      ap (λ p. (p.0, record (on_event (agent_started agent.identity attempt) s) { world = p.1 }))
        run

  -- The result of the loop as a pair, in the relation.
  abbrev RetriedPair : ℕ → ℕ → Session → Result AgentError AgentResult × Session → Type 0
  RetriedPair rounds attempt s r = Retried o agent task anchor rounds attempt s r.0 r.1

  retry_from_lem :
      (rounds attempt : ℕ) (last : Option AgentError) (s : Session)
      → 0 < rounds
      → attempt + rounds ≡ suc o.max_retries
      → RetriedPair rounds attempt s (retry_from o agent task anchor rounds attempt last s)
  unfolding retry_from
  retry_from_lem zero attempt last s some_left count = absurd (omega arith)
  retry_from_lem (suc rounds) attempt last s some_left count =
      elim (ending (agent.execute task anchor s.world)) [
        | returns res w run ↦
            rw (executes s attempt run, retry_from)
              (decided rounds attempt s (ok res) w run (λ e h. cc))
        | gives_up e w run ↦
            rw (executes s attempt run, retry_from)
              (decided rounds attempt s (err (permanent e)) w run (λ e' h. cc))
        | fails e w run ↦ elim (Bool-cases (ltb attempt o.max_retries)) [
          | inl more ↦
              rw (executes s attempt run, more, retry_from)
                (retried rounds attempt s e w run (
                  retry_from_lem rounds (suc attempt) (some (transient e))
                    (back_off o agent attempt e
                      (record (on_event (agent_started agent.identity attempt) s) { world = w }))
                    (omega (arith, ltb→lt attempt o.max_retries more)) (omega arith)))
          | inr full ↦
              rw (executes s attempt run, full, retry_from)
                (decided rounds attempt s (err (transient e)) w run (λ e' h. ground arith))
        ]
      ]

  -- With one attempt allowed at least, the loop ends: after transient failures only, all but the last
  -- attempt's, and within the limit. A transient error is its result only where the limit is
  -- reached. The observer sees one start for each attempt, numbered from 1, and a retry between two;
  -- the loop sleeps between two attempts and at no other time.
  pub run_agent_with_retry_lem :
      (s : Session)
      → 0 < o.max_retries
      → Retried o agent task anchor o.max_retries 1 s
          (run_agent_with_retry o agent task anchor s).0
          (run_agent_with_retry o agent task anchor s).1
  unfolding run_agent_with_retry
  run_agent_with_retry_lem s allowed = retry_from_lem o.max_retries 1 none s allowed (omega arith)

  retry_from_decides :
      (rounds attempt : ℕ) (last : Option AgentError) (s : Session) {errors : List Bytes}
      {w w' : World} {result : Result AgentError AgentResult}
      → attempt + rounds ≡ suc o.max_retries
      → length errors < rounds
      → Fails agent task anchor s.world errors w
      → agent.execute task anchor w ≡ (result, w')
      → ((e : Bytes) → result ≢ err (transient e))
      → retry_from o agent task anchor rounds attempt last s ≡ (
        result,
        record {
          world = w';
          events = s.events ++ trace agent.identity attempt errors;
          sleeps = s.sleeps ++ backoffs o.backoff_base_ms attempt errors;
        },
      )
  unfolding retry_from
  retry_from_decides zero attempt last s count few failures run final = absurd (omega arith)
  retry_from_decides (suc rounds) attempt last s {result = ok r} count few (start _) run final =
      rw (executes s attempt run, append-nil) refl
  retry_from_decides (suc rounds) attempt last s {result = err (permanent e)} count few (start _)
        run final =
      rw (executes s attempt run, append-nil) refl
  retry_from_decides (suc rounds) attempt last s {result = err (transient e)} count few (start _)
        run final =
      absurd (final e refl)
  retry_from_decides (suc rounds) attempt last s count few (again e _ w fail failures) run final =
      rw (executes s attempt fail, lt→ltb attempt o.max_retries (omega arith))
        (retry_from_decides rounds (suc attempt) (some (transient e))
            (back_off o agent attempt e
              (record (on_event (agent_started agent.identity attempt) s) { world = w }))
            (omega arith) (omega arith) failures run final
          ∙ simp append_assoc)

  -- An agent that fails transiently fewer times than there are attempts, and then returns or gives up,
  -- has its answer returned, with every failure retried and the sleeps between.
  pub run_agent_with_retry_decides :
      (s : Session) {errors : List Bytes} {w w' : World} {result : Result AgentError AgentResult}
      → length errors < o.max_retries
      → Fails agent task anchor s.world errors w
      → agent.execute task anchor w ≡ (result, w')
      → ((e : Bytes) → result ≢ err (transient e))
      → run_agent_with_retry o agent task anchor s ≡ (
        result,
        record {
          world = w';
          events = s.events ++ trace agent.identity 1 errors;
          sleeps = s.sleeps ++ backoffs o.backoff_base_ms 1 errors;
        },
      )
  unfolding run_agent_with_retry
  run_agent_with_retry_decides s few failures run final =
      retry_from_decides o.max_retries 1 none s (omega arith) few failures run final

  -- With no attempt allowed the agent is not run, and the error is the one that stands for none.
  pub run_agent_with_retry_never :
      (s : Session)
      → o.max_retries ≡ 0
      → run_agent_with_retry o agent task anchor s ≡ (err (permanent (text "unknown")), s)
  unfolding run_agent_with_retry retry_from
  run_agent_with_retry_never s none_left = rw none_left refl
