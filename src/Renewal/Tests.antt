-- ===== src/Renewal/Tests.antt =====
-- src/renewal.rs: the policy at a sample commitment.
use proof_of_context_impl.Prelude.{◌≡◌, ◌≢◌, ◌↔◌}
use proof_of_context_impl.Error.{ok}
use proof_of_context_impl.Freshness.{default_base_mainnet}
use proof_of_context_impl.Fixtures.{crypto, hash, root, commitment, at_block}
use proof_of_context_impl.Context.{merkle_root}
use proof_of_context_impl.Mock.Gate.Decision.{InWindow}
use proof_of_context_impl.Renewal.{
  still_valid, protected_by_prospective_only, expired_require_recommit, evaluate,
}
use proof_of_context_impl.Renewal.Window.{evaluate_iff}

-- The canonical root has moved on.
three_answers :
    ((evaluate commitment (hash 77) (at_block 1200) default_base_mainnet ≡ ok still_valid)
      ↔ (merkle_root crypto root ≡ hash 77))
    × ((evaluate commitment (hash 77) (at_block 1200) default_base_mainnet
          ≡ ok protected_by_prospective_only)
        ↔ ((merkle_root crypto root ≢ hash 77)
            × InWindow commitment (at_block 1200) default_base_mainnet))
    × ((evaluate commitment (hash 77) (at_block 1200) default_base_mainnet
          ≡ ok expired_require_recommit)
        ↔ ((merkle_root crypto root ≢ hash 77)
            × (¬ InWindow commitment (at_block 1200) default_base_mainnet)))
three_answers = evaluate_iff commitment (hash 77) (at_block 1200) default_base_mainnet
