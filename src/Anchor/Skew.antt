-- ===== src/Anchor/Skew.antt =====
-- src/anchor.rs: the skew between two anchors, and the divergence test.
use proof_of_context_impl.Prelude.{ℕ, ◌+◌, ◌*◌, ◌≤◌, ◌<◌, ◌≡◌, ◌↔◌, false, arith}
use proof_of_context_impl.Prelude.Word.{abs_diff}
use proof_of_context_impl.Freshness.{FreshnessThresholds}
use proof_of_context_impl.Anchor.{TripleAnchor, nanos, skew_vs, diverges_beyond}

-- One clock reads at most `t` apart in the two anchors.
abbrev pub Near : ℕ → ℕ → ℕ → Type 0
Near t x y = (x ≤ y + t) × (y ≤ x + t)

-- Two anchors do not diverge exactly when block heights and Drand rounds are each within their
-- thresholds, and the TEE timestamps are less than one second more than their threshold apart.
pub not_diverges_iff :
    (a b : TripleAnchor) (t : FreshnessThresholds)
    → (diverges_beyond a b t ≡ false)
      ↔ Near t.block_skew a.block_height b.block_height
        × (a.tee_timestamp < b.tee_timestamp + (t.tee_skew_secs + 1) * nanos)
        × (b.tee_timestamp < a.tee_timestamp + (t.tee_skew_secs + 1) * nanos)
        × Near t.drand_skew a.drand_round b.drand_round
unfolding diverges_beyond
not_diverges_iff a b t = (λ h. ground arith, λ h. ground arith)

abs_diff_comm : (x y : ℕ) → abs_diff x y ≡ abs_diff y x
abs_diff_comm x y = ground arith

-- Skew and divergence do not depend on which anchor is asked.
pub skew_vs_comm :
    (a b : TripleAnchor) (t : FreshnessThresholds)
    → (skew_vs a b ≡ skew_vs b a) × (diverges_beyond a b t ≡ diverges_beyond b a t)
unfolding skew_vs diverges_beyond
skew_vs_comm a b t = (
  rw (
    abs_diff_comm a.block_height b.block_height,
    abs_diff_comm a.tee_timestamp b.tee_timestamp,
    abs_diff_comm a.drand_round b.drand_round,
  ),
  rw (
    abs_diff_comm a.block_height b.block_height,
    abs_diff_comm a.tee_timestamp b.tee_timestamp,
    abs_diff_comm a.drand_round b.drand_round,
  ),
)

-- On every clock the skew obeys the triangle inequality.
pub skew_triangle :
    (a b c : TripleAnchor)
    → ((skew_vs a c).block_delta ≤ (skew_vs a b).block_delta + (skew_vs b c).block_delta)
      × ((skew_vs a c).tee_delta_ns ≤ (skew_vs a b).tee_delta_ns + (skew_vs b c).tee_delta_ns)
      × ((skew_vs a c).drand_delta ≤ (skew_vs a b).drand_delta + (skew_vs b c).drand_delta)
unfolding skew_vs
skew_triangle a b c = (ground arith, ground arith, ground arith)
