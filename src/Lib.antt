-- ===== src/Lib.antt =====
-- A verification library for the Proof-of-Context crate: freshness commitments over the execution
-- context of an inference, and the gates that decide whether a payment may settle.
--
-- The program. A worker commits (src/commitment.rs, src/mock.rs) to a hash of its execution
-- context (src/context.rs), to three clocks (src/anchor.rs) and to its output, and signs the
-- digest. A settlement gate (src/settle.rs, src/mock.rs) checks the signature, recomputes the hash
-- from the disclosed context and asks a canonical-state oracle (src/oracle.rs) how far the
-- committed model and inputs are from the canonical ones. The oracle is a mock, or the model
-- registry (src/model_registry.rs) and the input-freshness oracle (src/input_freshness.rs),
-- composed by axis. The dark pool (src/darkpool.rs) applies the same checks to several parties in
-- seconds, with the price oracle (src/price_freshness.rs). The renewal policy (src/renewal.rs)
-- says what becomes of a commitment when the canonical root moves. Backing sets (src/backing.rs)
-- carry the age of the sources of a claim through derivations, plain or signed by validators. The
-- network clients (src/clients) ask a Drand mirror and a node for the clocks of an anchor. Three
-- of the examples have logic of their own over the crate: a pipeline of agents with retries and a
-- chained receipt (examples/multi_agent_orchestrator.rs), a receipt that is checked by running the
-- model again (examples/eigencompute_freshness_receipt.rs), and memories that live as long as
-- their sources (examples/memory_freshness.rs).
--
-- The files. Each module is named for the source file that it models: Anchor for src/anchor.rs,
-- Attestation, Backing, Canonical, Clients, Commitment, Context, Darkpool, Error, Freshness,
-- InputFreshness for src/input_freshness.rs, Mock, ModelRegistry for src/model_registry.rs,
-- Oracle, PriceFreshness for src/price_freshness.rs, Renewal and Settle; ByteArray is the mod
-- byte_array_serde of src/backing.rs, which src/commitment.rs has once more; Orchestrator,
-- Reexecution and MemoryFreshness are the three examples. A type has the name of the Rust type, an
-- operation that of the method; a method of an `impl` of a trait is a function and a record that
-- holds it, and a trait is a record of functions. Child modules hold the proofs; the modules Tests
-- hold samples, over the data of Fixtures. Prelude has the shared helpers (byte strings, machine
-- words, signed numbers, decimal texts, stable sorting), SortedMap the maps of the standard
-- library, and Crypto what is taken from the crates for SHA-256 and Ed25519.
--
-- The model. An operation that changes its receiver returns the new state, together with its
-- result. An error is a value of Result, and `?` is a bind. A byte string, a hash, a key and a
-- string are lists of numbers; a float is its bit pattern. u64 and u128 are natural numbers, with
-- wrap-around, saturation and absolute difference written out: an addition that the source leaves
-- unchecked wraps, as in a release build. BTreeMap, HashMap and BTreeSet are lists in ascending
-- key order; no operation of the crate depends on another order. The feature `real-anchors` is a
-- Boolean argument of the anchor check, of the gate and of the block of an input attestation. A
-- loop is a recursion on the list that it walks; the retry loop of the orchestrator is a recursion
-- on the retries that are left, and the digits of a number one on their greatest count, 20 for a
-- u64. The seconds of a timestamp are computed in signed numbers (Prelude.Int), which stay far
-- inside an i64; InputFreshness.Timestamp.Calendar counts days one by one.
--
-- The orchestrator's agents are records of functions over a session, which holds the cells by
-- address, the memory, the events that the observers see and the sleeps. `none` stands for the
-- panic of an `expect`. A network client is a function of a state of the world, of a type that is
-- an argument. Texts of `format!` are written out, `{:?}` for strings of ASCII.
--
-- What is assumed. The crates for SHA-256, Ed25519, JSON and hexadecimal are the arguments
-- `crypto` and `json`; the crate for HTTP and the system clock are the argument `transport`, and
-- the readers of the clients' JSON are arguments of theirs, of which nothing is assumed. The
-- record IsCrypto states what the theorems that need it rely on: digests have 32 bytes, and what a
-- key signs verifies under it. That a digest binds its input is not assumed: such theorems end in
-- `or a collision`. As digests have one size, collisions exist; so where that size is a
-- hypothesis, the collision is one among inputs that the statement names (CollisionAmong), a few
-- that the runs in question hash. A theorem on encodings takes the ranges of the machine types as
-- hypotheses.
--
-- Not modelled: serialization by serde but for the reading of byte arrays, the display texts of
-- the errors of the crate, what the examples' observers print, the examples that only print
-- (gen_test_vectors, measure_costs, sketch, staleness_laundering) and the tests.
pub mod Prelude
mod Fixtures
pub mod ByteArray
pub mod Clients
pub mod Crypto
pub mod SortedMap
pub mod Freshness
pub mod Error
pub mod Anchor
pub mod Attestation
pub mod Context
pub mod Commitment
pub mod Oracle
pub mod Settle
pub mod Mock
pub mod Renewal
pub mod Backing
pub mod Canonical
pub mod InputFreshness
pub mod PriceFreshness
pub mod Darkpool
pub mod ModelRegistry
pub mod Orchestrator
pub mod Reexecution
pub mod MemoryFreshness
