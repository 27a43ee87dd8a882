-- ===== src/Orchestrator/AgentSteps.antt =====
-- examples/multi_agent_orchestrator.rs: what each of the three agents does.
use proof_of_context_impl.Prelude.{
  ℕ, zero, suc, ◌+◌, ◌-◌, ◌%◌, ◌≤◌, ◌<◌, ◌≡◌, refl, ap, true, false, some, List, [], ◌∷◌, ◌++◌,
  arith, ltb, lt→ltb, if◌then◌else◌, length,
}
use proof_of_context_impl.Prelude.Bytes.{Bytes, text}
use proof_of_context_impl.Prelude.Word.{u32_mod, le_bytes}
use proof_of_context_impl.Prelude.Decimal.{decimal}
use proof_of_context_impl.Crypto.{Crypto}
use proof_of_context_impl.Error.{ok, err}
use proof_of_context_impl.Anchor.{TripleAnchor}
use proof_of_context_impl.Orchestrator.{
  AgentTask, AgentResult, transient, permanent, World, read, put, set_cell,
}
use proof_of_context_impl.Orchestrator.Agents.{
  OraclePriceAgent, DecisionAgent, oracle_execute, decision_execute, settlement_execute,
  settlement_hash, price_e6, result, oracle_price_agent,
}
use proof_of_context_impl.Orchestrator.Retry.{Fails, start, again}

-- The signal that the decision agent derives from the price.
abbrev pub signal_byte : DecisionAgent → ℕ
signal_byte d = if ltb d.threshold_e6 price_e6 then 1 else 0

abbrev pub signal : DecisionAgent → Bytes
signal d = signal_byte d ∷ []

module _ (task : AgentTask) (a : TripleAnchor) where
  pub oracle_returns :
      (self : OraclePriceAgent) (w : World)
      → self.permanent_failure ≡ false
      → self.flakiness_seed ≤ w.cells self.failure_count
      → oracle_execute self task a w ≡ (
        ok (result task (le_bytes 8 price_e6) a),
        record w { memory = put (text "price_e6") (le_bytes 8 price_e6) w.memory },
      )
  unfolding oracle_execute
  oracle_returns self w up spent = ground arith

  oracle_fails :
      (self : OraclePriceAgent) (w : World)
      → self.permanent_failure ≡ false
      → w.cells self.failure_count < self.flakiness_seed
      → self.flakiness_seed < u32_mod
      → oracle_execute self task a w ≡ (
        err (
            transient (
              text "oracle timeout (attempt "
              ++ (decimal (suc (w.cells self.failure_count)) ++ text ")"))),
        record w { cells = set_cell w.cells self.failure_count (suc (w.cells self.failure_count)) },
      )
  unfolding oracle_execute
  oracle_fails self w up left range =
      let counted : (w.cells self.failure_count + 1) % u32_mod ≡ suc (w.cells self.failure_count) =
        omega arith in
      rw (up, lt→ltb _ _ left, counted) refl

  pub oracle_gives_up :
      (self : OraclePriceAgent) (w : World)
      → self.permanent_failure ≡ true
      → oracle_execute self task a w ≡ (err (permanent (text "oracle endpoint unreachable")), w)
  unfolding oracle_execute
  oracle_gives_up self w down = rw down refl

  pub decision_returns :
      (self : DecisionAgent) (w : World)
      → read (text "price_e6") w.memory ≡ some (le_bytes 8 price_e6)
      → decision_execute self task a w ≡ (
        ok (result task (signal self) a),
        record w { memory = put (text "signal") (signal self) w.memory },
      )
  unfolding decision_execute le_bytes
  decision_returns self w there = rw (there, decision_execute) refl

  pub settlement_returns :
      (crypto : Crypto) (w : World) (x : ℕ)
      → read (text "signal") w.memory ≡ some (x ∷ [])
      → settlement_execute crypto task a w ≡ (
        ok (result task (settlement_hash crypto task (x ∷ [])) a),
        record w {
          memory = put (text "settlement_hash") (settlement_hash crypto task (x ∷ [])) w.memory;
        },
      )
  unfolding settlement_execute
  settlement_returns crypto w x there = rw (there, settlement_execute) refl

  -- So many failures in a row, until the seed is reached.
  pub record Flaked (self : OraclePriceAgent) (w : World) (left : ℕ) : Type 0 where
    pub errors : List Bytes
    pub spent : World
    pub failures : Fails (oracle_price_agent self) task a w errors spent
    pub count : length errors ≡ left
    pub reached : spent.cells self.failure_count ≡ w.cells self.failure_count + left
    pub kept : spent.memory ≡ w.memory

  pub oracle_flaky :
      (self : OraclePriceAgent) (w : World) (left : ℕ)
      → self.permanent_failure ≡ false
      → self.flakiness_seed < u32_mod
      → left ≤ self.flakiness_seed - w.cells self.failure_count
      → Flaked self w left
  oracle_flaky self w zero up range few = record {
    errors = [];
    spent = w;
    failures = start w;
    count = refl;
    reached = omega arith;
    kept = refl;
  }
  oracle_flaky self w (suc left) up range few =
      let w' : World = record w {
        cells = set_cell w.cells self.failure_count (suc (w.cells self.failure_count));
      } in
      let counted : w'.cells self.failure_count ≡ suc (w.cells self.failure_count) = ground arith in
      let rest = oracle_flaky self w' left up range (omega arith) in
      record {
        errors = _ ∷ rest.errors;
        spent = rest.spent;
        failures = again _ w w' (oracle_fails self w up (omega arith) range) rest.failures;
        count = ap suc rest.count;
        reached = omega (arith, rest.reached);
        kept = rest.kept;
      }

  pub oracle_answers :
      (self : OraclePriceAgent) (w : World) {r : AgentResult} {w' : World}
      → oracle_execute self task a w ≡ (ok r, w')
      → (self.permanent_failure ≡ false) × (self.flakiness_seed ≤ w.cells self.failure_count)
  unfolding oracle_execute
  oracle_answers self w h = ground arith

  oracle_counts :
      (self : OraclePriceAgent) (w w' : World) (e : Bytes)
      → oracle_execute self task a w ≡ (err (transient e), w')
      → w'.cells self.failure_count ≤ suc (w.cells self.failure_count)
  unfolding oracle_execute
  oracle_counts self w w' e h = ground arith

  -- The count grows by one at most with each failure.
  pub oracle_spent :
      (self : OraclePriceAgent) {w last : World} {errors : List Bytes}
      → Fails (oracle_price_agent self) task a w errors last
      → last.cells self.failure_count ≤ w.cells self.failure_count + length errors
  oracle_spent self (start w) = omega arith
  oracle_spent self (again e w w' fail failures) =
      omega (arith, oracle_counts self w w' e fail, oracle_spent self failures)
