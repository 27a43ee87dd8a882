-- ===== src/Anchor/Clocks.antt =====
-- src/anchor.rs: what the wall-clock derivations and the consistency predicate decide.
use proof_of_context_impl.Prelude.{
  ℕ, ◌+◌, ◌-◌, ◌*◌, ◌/◌, ◌≤◌, ◌<◌, ◌≡◌, ◌↔◌, Bool, true, false, arith, leb,
}
use proof_of_context_impl.Prelude.Word.{u64_mod, u64_max, wrapping_add, saturating_mul, abs_diff}
use proof_of_context_impl.Freshness.{FreshnessThresholds}
use proof_of_context_impl.Anchor.{
  TripleAnchor, drand_genesis_unix, drand_period_secs, nanos, drand_wall_time_secs,
  tee_wall_time_secs, tee_drand_consistent, internally_consistent,
}

-- The times of an anchor that no operation on u64 cuts off.
pub record IsInRange (a : TripleAnchor) : Type 0 where
  pub round_fits : drand_genesis_unix + 30 * a.drand_round < u64_mod
  pub tee_fits : a.tee_timestamp / nanos < u64_mod

-- Tolerances that no operation on u64 cuts off.
abbrev pub HasTolerance : FreshnessThresholds → Type 0
HasTolerance t = t.tee_skew_secs + 30 * t.drand_skew < u64_mod

pub drand_wall_time_lem :
    (a : TripleAnchor)
    → IsInRange a
    → drand_wall_time_secs a ≡ drand_genesis_unix + 30 * a.drand_round
unfolding drand_wall_time_secs
drand_wall_time_lem a r = omega arith

pub tee_wall_time_lem :
    (a : TripleAnchor) → IsInRange a → tee_wall_time_secs a ≡ a.tee_timestamp / nanos
unfolding tee_wall_time_secs
tee_wall_time_lem a r = omega arith

-- A round number whose 30-second multiple saturates at the largest u64 has the wall time one second
-- before the Drand genesis: the addition of the genesis wraps.
pub saturated_round_wraps :
    (a : TripleAnchor)
    → u64_max ≤ 30 * a.drand_round
    → drand_wall_time_secs a ≡ drand_genesis_unix - 1
unfolding drand_wall_time_secs
saturated_round_wraps a h = omega arith

pub abs_diff-le_iff : (x y t : ℕ) → (leb (abs_diff x y) t ≡ true) ↔ (x ≤ y + t) × (y ≤ x + t)
abs_diff-le_iff x y t = (λ h. ground arith, λ h. ground arith)

tolerance_lem :
    (t : FreshnessThresholds)
    → HasTolerance t
    → wrapping_add t.tee_skew_secs (saturating_mul t.drand_skew drand_period_secs)
      ≡ t.tee_skew_secs + 30 * t.drand_skew
tolerance_lem t h = omega arith

-- For times and tolerances that fit in u64, the check accepts an anchor exactly when its TEE seconds
-- and the emission time of its Drand round are within the TEE skew plus 30 seconds for each round
-- of Drand skew, whichever of the two clocks is ahead.
pub tee_drand_consistent_iff :
    (a : TripleAnchor) (t : FreshnessThresholds)
    → IsInRange a
    → HasTolerance t
    → (tee_drand_consistent a t ≡ true)
      ↔ (a.tee_timestamp / nanos
          ≤ drand_genesis_unix + 30 * a.drand_round + (t.tee_skew_secs + 30 * t.drand_skew))
        × (drand_genesis_unix + 30 * a.drand_round
            ≤ a.tee_timestamp / nanos + (t.tee_skew_secs + 30 * t.drand_skew))
unfolding tee_drand_consistent
tee_drand_consistent_iff a t r h =
    rw (drand_wall_time_lem a r, tee_wall_time_lem a r, tolerance_lem t h) (abs_diff-le_iff _ _ _)

-- Of two anchors with one Drand round whose TEE clocks are more than twice the tolerance apart,
-- at most one is consistent: a TEE clock that is moved that far is noticed.
pub moved_tee_clock_is_noticed :
    (a b : TripleAnchor) (t : FreshnessThresholds)
    → IsInRange a
    → IsInRange b
    → HasTolerance t
    → a.drand_round ≡ b.drand_round
    → a.tee_timestamp / nanos + 2 * (t.tee_skew_secs + 30 * t.drand_skew) < b.tee_timestamp / nanos
    → (real_anchors : Bool) → internally_consistent real_anchors a t ≡ true
    → internally_consistent real_anchors b t ≡ false
unfolding internally_consistent
moved_tee_clock_is_noticed a b t ra rb h e moved real_anchors ok =
    ground (arith, tee_drand_consistent_iff a t ra h, tee_drand_consistent_iff b t rb h)

-- The feature only adds a check: what is consistent with it is consistent without it.
pub internally_consistent_mono :
    (real_anchors : Bool) (a : TripleAnchor) (t : FreshnessThresholds)
    → internally_consistent real_anchors a t ≡ true
    → internally_consistent false a t ≡ true
unfolding internally_consistent
internally_consistent_mono real_anchors a t h = ground arith
