-- ===== src/Anchor.antt =====
-- src/anchor.rs: the triple anchor. A u64 or u128 is an ℕ; an addition that the source leaves
-- unchecked wraps, as in a release build. `real_anchors` is the cargo feature of that name.
pub mod Clocks
pub mod Skew
mod Tests
use proof_of_context_impl.Prelude.{
  ℕ, ◌*◌, ◌/◌, ◌%◌, ◌<◌, Bool, true, false, ◌||◌, not, ltb, leb, if◌then◌else◌,
}
use proof_of_context_impl.Prelude.Word.{u64_mod, u128_mod, wrapping_add, saturating_mul, abs_diff}
use proof_of_context_impl.Freshness.{FreshnessThresholds}

abbrev pub drand_genesis_unix : ℕ
drand_genesis_unix = 1595431050

abbrev pub drand_period_secs : ℕ
drand_period_secs = 30

abbrev pub base_mainnet_genesis_unix : ℕ
base_mainnet_genesis_unix = 1686789347

abbrev pub base_block_period_secs : ℕ
base_block_period_secs = 2

-- nanoseconds in a second
abbrev pub nanos : ℕ
nanos = 1000000000

pub record TripleAnchor : Type 0 where
  pub block_height : ℕ
  pub tee_timestamp : ℕ
  pub drand_round : ℕ

-- The ranges of the fields: u64, u128, u64.
pub record IsAnchor (a : TripleAnchor) : Type 0 where
  pub block_range : a.block_height < u64_mod
  pub tee_range : a.tee_timestamp < u128_mod
  pub drand_range : a.drand_round < u64_mod

-- `TripleAnchor::new`
abbrev pub anchor : ℕ → ℕ → ℕ → TripleAnchor
anchor block tee drand = record { block_height = block; tee_timestamp = tee; drand_round = drand }

unfoldable pub drand_wall_time_secs : TripleAnchor → ℕ
drand_wall_time_secs a =
    wrapping_add drand_genesis_unix (saturating_mul a.drand_round drand_period_secs)

pub record AnchorSkew : Type 0 where
  pub block_delta : ℕ
  pub tee_delta_ns : ℕ
  pub drand_delta : ℕ

unfoldable pub skew_vs : TripleAnchor → TripleAnchor → AnchorSkew
skew_vs a b = record {
  block_delta = abs_diff a.block_height b.block_height;
  tee_delta_ns = abs_diff a.tee_timestamp b.tee_timestamp;
  drand_delta = abs_diff a.drand_round b.drand_round;
}

-- The cast `as u64` keeps the low 64 bits.
unfoldable pub tee_wall_time_secs : TripleAnchor → ℕ
tee_wall_time_secs a = (a.tee_timestamp / nanos) % u64_mod

unfoldable pub tee_drand_consistent : TripleAnchor → FreshnessThresholds → Bool
unfolding drand_wall_time_secs tee_wall_time_secs
tee_drand_consistent a t =
    let tol = wrapping_add t.tee_skew_secs (saturating_mul t.drand_skew drand_period_secs) in
    leb (abs_diff (tee_wall_time_secs a) (drand_wall_time_secs a)) tol

-- The block leg, compiled in under `real-anchors` only.
unfoldable pub block_drand_consistent : TripleAnchor → FreshnessThresholds → Bool
unfolding drand_wall_time_secs
block_drand_consistent a t =
    let block_secs =
      wrapping_add base_mainnet_genesis_unix
        (saturating_mul a.block_height base_block_period_secs) in
    let block_tol =
      wrapping_add (saturating_mul t.block_skew base_block_period_secs)
        (saturating_mul t.drand_skew drand_period_secs) in
    not (ltb block_tol (abs_diff block_secs (drand_wall_time_secs a)))

unfoldable pub internally_consistent : Bool → TripleAnchor → FreshnessThresholds → Bool
internally_consistent real_anchors a t =
    if not (tee_drand_consistent a t)
    then false
    else if real_anchors
    then block_drand_consistent a t
    else true

unfoldable pub diverges_beyond : TripleAnchor → TripleAnchor → FreshnessThresholds → Bool
unfolding skew_vs
diverges_beyond a b t =
    let s = skew_vs a b in
    let tee_secs = s.tee_delta_ns / nanos in
    ltb t.block_skew s.block_delta || ltb t.tee_skew_secs tee_secs || ltb t.drand_skew s.drand_delta
