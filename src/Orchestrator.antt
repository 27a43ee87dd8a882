-- ===== src/Orchestrator.antt =====
-- examples/multi_agent_orchestrator.rs: the pipeline's data. The `Cell`s of the agents are a store,
-- the memory and the observed events are part of the state, and an agent is a record of functions.
pub mod Agents
pub mod Steps
pub mod Pipeline
pub mod Retry
pub mod Backoff
pub mod Trace
pub mod Run
pub mod Receipts
pub mod Binding
pub mod Audit
pub mod AgentSteps
pub mod Delivery
mod Tests
use proof_of_context_impl.Prelude.{ℕ, Option, List, [], ◌∷◌, ◌++◌, if◌then◌else◌, ◌==◌}
use proof_of_context_impl.Prelude.Bytes.{Bytes}
use proof_of_context_impl.Error.{Result}
use proof_of_context_impl.SortedMap
use proof_of_context_impl.SortedMap.{SortedMap}
use proof_of_context_impl.Anchor.{TripleAnchor}
use proof_of_context_impl.Context.{Hash32}
use proof_of_context_impl.Commitment.{FreshnessCommitment}
use proof_of_context_impl.Mock.Committer.{MockCommitter}

pub record AgentTask : Type 0 where
  pub task_id : ℕ
  pub input : Bytes

pub record AgentResult : Type 0 where
  pub task_id : ℕ
  pub output : Bytes
  pub emitted_at : TripleAnchor

pub data AgentError : Type 0 where
  transient : Bytes → AgentError
  permanent : Bytes → AgentError

-- The map `kv` of `MemoryStore`.
abbrev pub MemoryStore : Type 0
MemoryStore = SortedMap Bytes

-- MemoryStore::new
abbrev pub new_memory : MemoryStore
new_memory = SortedMap.empty

-- MemoryStore::get
abbrev pub read : Bytes → MemoryStore → Option Bytes
read key mem = SortedMap.get key mem

-- MemoryStore::put
abbrev pub put : Bytes → Bytes → MemoryStore → MemoryStore
put key value mem = SortedMap.insert key value mem

-- What the `Cell<u32>`s hold, by address.
abbrev pub Cells : Type 0
Cells = ℕ → ℕ

-- cell.set(value)
abbrev pub set_cell : Cells → ℕ → ℕ → Cells
set_cell cells address value j = if j == address then value else cells j

-- What an agent may change: the memory that it is lent, and the cells behind `&self`.
pub record World : Type 0 where
  pub memory : MemoryStore
  pub cells : Cells

pub record Agent : Type 0 where
  pub identity : Bytes
  pub execute : AgentTask → TripleAnchor → World → Result AgentError AgentResult × World

pub data Event : Type 0 where
  agent_started : Bytes → ℕ → Event
  agent_retrying : Bytes → ℕ → Bytes → Event
  agent_failed : Bytes → Bytes → Event
  agent_succeeded : Bytes → Event
  orchestrator_complete : ℕ → Event

-- What a run has done so far: the world, the events that the observer was given, and the sleeps
-- in milliseconds, both in order.
pub record Session : Type 0 where
  pub world : World
  pub events : List Event
  pub sleeps : List ℕ

-- observer.on_event(&event)
abbrev pub on_event : Event → Session → Session
on_event event s = record s { events = s.events ++ event ∷ [] }

-- thread::sleep(Duration::from_millis(ms))
abbrev pub sleep : ℕ → Session → Session
sleep ms s = record s { sleeps = s.sleeps ++ ms ∷ [] }

pub record OrchestrationReceipt : Type 0 where
  pub task_id : ℕ
  pub commitments : List FreshnessCommitment
  pub chain_hash : Hash32
  pub final_anchor : TripleAnchor

pub data OrchestrationOutcome : Type 0 where
  complete : OrchestrationReceipt → OrchestrationOutcome
  -- failed_agent, error, partial_receipts
  failed : Bytes → Bytes → List FreshnessCommitment → OrchestrationOutcome

pub record Orchestrator : Type 0 where
  pub agents : List Agent
  pub max_retries : ℕ
  pub backoff_base_ms : ℕ
  pub committer : MockCommitter

-- Orchestrator::new
abbrev pub new : List Agent → MockCommitter → Orchestrator
new agents committer = record {
  agents = agents;
  max_retries = 3;
  backoff_base_ms = 50;
  committer = committer;
}

abbrev pub with_max_retries : ℕ → Orchestrator → Orchestrator
with_max_retries n o = record o { max_retries = n }

abbrev pub with_backoff_base_ms : ℕ → Orchestrator → Orchestrator
with_backoff_base_ms ms o = record o { backoff_base_ms = ms }
