-- ===== src/Renewal.antt =====
-- src/renewal.rs: prospective-only root bumps.
pub mod Window
mod Tests
use proof_of_context_impl.Prelude.{◌-◌, Bool, ◌&&◌, leb, if◌then◌else◌}
use proof_of_context_impl.Prelude.Bytes.{◌==◌}
use proof_of_context_impl.Error.{PocError, Result, ok}
use proof_of_context_impl.Freshness.{FreshnessThresholds}
use proof_of_context_impl.Anchor.{TripleAnchor}
use proof_of_context_impl.Context.{Hash32}
use proof_of_context_impl.Commitment.{FreshnessCommitment}

pub data RenewalOutcome : Type 0 where
  still_valid protected_by_prospective_only expired_require_recommit : RenewalOutcome

pub record Renewal : Type 0 where
  pub evaluate :
      FreshnessCommitment
      → Hash32
      → TripleAnchor
      → FreshnessThresholds
      → Result PocError RenewalOutcome

-- impl Renewal for WindowedRenewal
unfoldable pub evaluate :
    FreshnessCommitment
    → Hash32
    → TripleAnchor
    → FreshnessThresholds
    → Result PocError RenewalOutcome
evaluate commitment current_canonical_root now thresholds =
    if commitment.context_root == current_canonical_root
    then ok still_valid
    else let within_window =
        leb commitment.anchor.block_height now.block_height
        && leb (now.block_height - commitment.anchor.block_height) thresholds.max_fs_blocks in
      if within_window then ok protected_by_prospective_only else ok expired_require_recommit

abbrev pub windowed_renewal : Renewal
windowed_renewal = record { evaluate = λ c root now t. evaluate c root now t }
