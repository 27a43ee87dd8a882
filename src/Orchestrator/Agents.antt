-- ===== src/Orchestrator/Agents.antt =====
-- examples/multi_agent_orchestrator.rs: the three agents.
use proof_of_context_impl.Prelude.{
  ℕ, ◌+◌, ◌*◌, ◌%◌, Bool, true, false, none, some, [], ◌∷◌, ◌++◌, not, ltb, if◌then◌else◌, ◌==◌,
  length,
}
use proof_of_context_impl.Prelude.Bytes.{Bytes, text}
use proof_of_context_impl.Prelude.Word.{u32_mod, le_bytes}
use proof_of_context_impl.Prelude.Decimal.{decimal}
use proof_of_context_impl.Crypto.{Crypto}
use proof_of_context_impl.Error.{Result, ok, err}
use proof_of_context_impl.Anchor.{TripleAnchor}
use proof_of_context_impl.Orchestrator.{
  AgentTask, AgentResult, AgentError, transient, permanent, read, put, Cells, set_cell, World,
  Agent,
}

-- `failure_count` is the address of the cell.
pub record OraclePriceAgent : Type 0 where
  pub flakiness_seed : ℕ
  pub failure_count : ℕ
  pub permanent_failure : Bool

-- OraclePriceAgent::new, with a cell at this address that holds 0.
abbrev pub new_oracle : ℕ → ℕ → Cells → OraclePriceAgent × Cells
new_oracle flakiness_seed address cells = (
  record { flakiness_seed = flakiness_seed; failure_count = address; permanent_failure = false },
  set_cell cells address 0,
)

-- OraclePriceAgent::permanent
abbrev pub permanent_oracle : ℕ → Cells → OraclePriceAgent × Cells
permanent_oracle address cells = (
  record { flakiness_seed = 0; failure_count = address; permanent_failure = true },
  set_cell cells address 0,
)

abbrev pub price_e6 : ℕ
price_e6 = 28500000000

-- What all agents return.
abbrev pub result : AgentTask → Bytes → TripleAnchor → AgentResult
result task output anchor = record { task_id = task.task_id; output = output; emitted_at = anchor }

unfoldable pub oracle_execute :
    OraclePriceAgent → AgentTask → TripleAnchor → World → Result AgentError AgentResult × World
oracle_execute self task anchor w =
    let count = w.cells self.failure_count in
    let counted = (count + 1) % u32_mod in
    let output = le_bytes 8 price_e6 in
    if self.permanent_failure
    then (err (permanent (text "oracle endpoint unreachable")), w)
    else if ltb count self.flakiness_seed
    then (
      err (transient (text "oracle timeout (attempt " ++ (decimal counted ++ text ")"))),
      record w { cells = set_cell w.cells self.failure_count counted },
    )
    else (
      ok (result task output anchor),
      record w { memory = put (text "price_e6") output w.memory },
    )

abbrev pub oracle_price_agent : OraclePriceAgent → Agent
oracle_price_agent self = record {
  identity = text "oracle-price";
  execute = λ task anchor w. oracle_execute self task anchor w;
}

pub record DecisionAgent : Type 0 where
  pub threshold_e6 : ℕ

-- u64::from_le_bytes
unfoldable pub from_le_bytes : Bytes → ℕ
from_le_bytes [] = 0
from_le_bytes (b ∷ bs) = b + 256 * from_le_bytes bs

unfoldable pub decision_execute :
    DecisionAgent → AgentTask → TripleAnchor → World → Result AgentError AgentResult × World
unfolding from_le_bytes
decision_execute self task anchor w = elim (read (text "price_e6") w.memory) [
  | none ↦ (err (permanent (text "price not in memory")), w)
  | some price_bytes ↦
      let price = from_le_bytes price_bytes in
      let signal = (if ltb self.threshold_e6 price then 1 else 0) ∷ [] in
      if not (length price_bytes == 8) then (err (permanent (text "malformed price")), w) else (
        ok (result task signal anchor),
        record w { memory = put (text "signal") signal w.memory },
      )
]

abbrev pub decision_agent : DecisionAgent → Agent
decision_agent self = record {
  identity = text "decision";
  execute = λ task anchor w. decision_execute self task anchor w;
}

-- What the settlement agent returns and stores for a signal.
unfoldable pub settlement_hash : Crypto → AgentTask → Bytes → Bytes
settlement_hash crypto task signal =
    crypto.sha256 (text "settlement-output-v1" ++ (le_bytes 8 task.task_id ++ signal))

unfoldable pub settlement_execute :
    Crypto → AgentTask → TripleAnchor → World → Result AgentError AgentResult × World
settlement_execute crypto task anchor w = elim (read (text "signal") w.memory) [
  | none ↦ (err (permanent (text "signal not in memory")), w)
  | some signal ↦
      let output = settlement_hash crypto task signal in
      if not (length signal == 1) then (err (permanent (text "malformed signal")), w) else (
        ok (result task output anchor),
        record w { memory = put (text "settlement_hash") output w.memory },
      )
]

abbrev pub settlement_agent : Crypto → Agent
settlement_agent crypto = record {
  identity = text "settlement";
  execute = λ task anchor w. settlement_execute crypto task anchor w;
}
