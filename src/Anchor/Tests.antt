-- ===== src/Anchor/Tests.antt =====
-- src/anchor.rs: the theorems at sample anchors.
use proof_of_context_impl.Prelude.{◌+◌, ◌≤◌, ◌≡◌, ◌↔◌, refl, true, false, arith}
use proof_of_context_impl.Prelude.Word.{u64_max}
use proof_of_context_impl.Freshness.{default_base_mainnet}
use proof_of_context_impl.Fixtures.{anchor}
use proof_of_context_impl.Anchor.{
  TripleAnchor, drand_wall_time_secs, tee_drand_consistent, internally_consistent,
}
use proof_of_context_impl.Anchor.Clocks.{IsInRange, tee_drand_consistent_iff, saturated_round_wraps}

-- the same round, with the TEE clock two minutes ahead
abbrev moved : TripleAnchor
moved = record anchor { tee_timestamp = 1595431270000000000 }

abbrev last_round : TripleAnchor
last_round = record anchor { drand_round = u64_max }

anchor-IsInRange : IsInRange anchor
anchor-IsInRange = record { round_fits = omega arith; tee_fits = omega arith }

moved-IsInRange : IsInRange moved
moved-IsInRange = record { round_fits = omega arith; tee_fits = omega arith }

tee_drand_consistent_iff_example :
    (tee_drand_consistent anchor default_base_mainnet ≡ true)
    ↔ (1595431150 ≤ 1595431140 + (5 + 30)) × (1595431140 ≤ 1595431150 + (5 + 30))
tee_drand_consistent_iff_example =
    tee_drand_consistent_iff anchor default_base_mainnet anchor-IsInRange (omega arith)

anchor_is_consistent : internally_consistent false anchor default_base_mainnet ≡ true
unfolding internally_consistent tee_drand_consistent
anchor_is_consistent = refl

saturated_round_wraps_example : drand_wall_time_secs last_round ≡ 1595431049
saturated_round_wraps_example = saturated_round_wraps last_round (omega arith)
