-- ===== src/Orchestrator/Backoff.antt =====
-- examples/multi_agent_orchestrator.rs: how long the retry loop sleeps.
use proof_of_context_impl.Prelude.{
  ℕ, zero, suc, ◌+◌, ◌-◌, ◌*◌, ◌%◌, ◌^◌, ap, ◌≤◌, ◌<◌, ◌≡◌, refl, ◌∙◌, List, [], ◌∷◌, ◌++◌, arith,
  length,
}
use proof_of_context_impl.Prelude.Bytes.{Bytes}
use proof_of_context_impl.Prelude.Word.{u64_mod}
use proof_of_context_impl.Anchor.{TripleAnchor}
use proof_of_context_impl.Orchestrator.{AgentTask, Agent, Session, Orchestrator}
use proof_of_context_impl.Orchestrator.Pipeline.{backoff_ms, run_agent_with_retry}
use proof_of_context_impl.Orchestrator.Retry.{trace, backoffs, run_agent_with_retry_lem}
use native.Mathlib.Nat.{pow-succ', pow-le-pow_right, mod-eq_of_lt, mul-le-mul_left, zero-add}

abbrev pub total : List ℕ → ℕ
total [] = 0
total (x ∷ xs) = x + total xs

total-append : (xs ys : List ℕ) → total (xs ++ ys) ≡ total xs + total ys
total-append [] ys = omega arith
total-append (x ∷ xs) ys = omega (arith, total-append xs ys)

lt_of_mul : (b p m : ℕ) → suc b * p < m → p < m
lt_of_mul b p m fits = grind arith

small : (base k : ℕ) → base * 2 ^ k < u64_mod → base * (2 ^ k % u64_mod) ≡ base * 2 ^ k
small zero k fits = omega arith
small (suc b) k fits = ap (λ n. suc b * n) (mod-eq_of_lt (lt_of_mul b (2 ^ k) u64_mod fits))

-- Without a wrap, the sleep doubles with each attempt.
backoff_ms-eq : (base k : ℕ) → base * 2 ^ k < u64_mod → backoff_ms base (suc k) ≡ base * 2 ^ k
unfolding backoff_ms
backoff_ms-eq base k fits =
    let exponent : suc k - 1 ≡ k = omega arith in
    let power : base * (2 ^ k % u64_mod) ≡ base * 2 ^ k = small base k fits in
    rw (exponent, power) (mod-eq_of_lt fits)

doubles : (base k : ℕ) → base * 2 ^ suc k ≡ 2 * (base * 2 ^ k)
doubles base k = rw (pow-succ' 2 k) (grind arith)

first_sleep : (base k : ℕ) → base * 2 ^ suc k ≤ u64_mod → backoff_ms base (suc k) ≡ base * 2 ^ k
first_sleep base k fits = backoff_ms-eq base k (omega (arith, doubles base k))

-- So many sleeps, the first of the base and each twice the one before.
abbrev pub doubling : ℕ → ℕ → List ℕ
doubling base zero = []
doubling base (suc n) = base ∷ doubling (2 * base) n

total-doubling : (base n : ℕ) → total (doubling base n) + base ≡ base * 2 ^ n
total-doubling base zero = omega arith
total-doubling base (suc n) =
    let twice : 2 * base * 2 ^ n ≡ base * 2 ^ suc n = rw (doubles base n) (grind arith) in
    omega (arith, total-doubling (2 * base) n, twice)

-- The sleeps from attempt `k + 1` on, for so many failures.
backoffs-doubling :
    (base k : ℕ) (errors : List Bytes)
    → base * 2 ^ (k + length errors) ≤ u64_mod
    → backoffs base (suc k) errors ≡ doubling (base * 2 ^ k) (length errors)
backoffs-doubling base k [] fits = refl
backoffs-doubling base k (e ∷ errors) fits =
    let shift : k + suc (length errors) ≡ suc k + length errors = omega arith in
    let fits' : base * 2 ^ (suc k + length errors) ≤ u64_mod = rw (← shift) fits in
    let grows : base * 2 ^ suc k ≤ base * 2 ^ (suc k + length errors) =
      mul-le-mul_left base (pow-le-pow_right (omega arith) (omega arith)) in
    rw
      (
        first_sleep base k (omega arith),
        backoffs-doubling base (suc k) errors fits',
        doubles base k,
      )
      refl

-- Where the base, doubled for each retry allowed, is at most 2^64, and one attempt at least is
-- allowed: between two attempts the loop sleeps exactly once, the base first and twice as long each time; the observer sees a retry for each sleep
-- and there are no more than are allowed. Together with one base the new sleeps come to the base
-- times two to the power of their number.
pub run_agent_with_retry-sleeps :
    (o : Orchestrator) (agent : Agent) (task : AgentTask) (anchor : TripleAnchor) (s : Session)
    (retries : ℕ)
    → o.max_retries ≡ suc retries
    → o.backoff_base_ms * 2 ^ retries ≤ u64_mod
    → (errors : List Bytes) × (length errors ≤ retries)
      × ((run_agent_with_retry o agent task anchor s).1.events
          ≡ s.events ++ trace agent.identity 1 errors)
      × ((run_agent_with_retry o agent task anchor s).1.sleeps
          ≡ s.sleeps ++ doubling o.backoff_base_ms (length errors))
      × (total (doubling o.backoff_base_ms (length errors)) + o.backoff_base_ms
          ≡ o.backoff_base_ms * 2 ^ length errors)
run_agent_with_retry-sleeps o agent task anchor s retries allowed fits =
    let r = run_agent_with_retry_lem o agent task anchor s (omega arith) in
    let fewer : length r.errors ≤ retries = omega (arith, r.bounded) in
    let power : o.backoff_base_ms * 2 ^ length r.errors ≤ o.backoff_base_ms * 2 ^ retries =
      mul-le-mul_left o.backoff_base_ms (pow-le-pow_right (omega arith) fewer) in
    let first : o.backoff_base_ms * 2 ^ 0 ≡ o.backoff_base_ms = omega arith in
    let slept : backoffs o.backoff_base_ms 1 r.errors
        ≡ doubling o.backoff_base_ms (length r.errors) =
      rw first at (backoffs-doubling o.backoff_base_ms 0 r.errors (rw zero-add (omega arith))) in
    (
      r.errors,
      fewer,
      r.events,
      r.sleeps ∙ ap (λ t. s.sleeps ++ t) slept,
      total-doubling o.backoff_base_ms (length r.errors),
    )
