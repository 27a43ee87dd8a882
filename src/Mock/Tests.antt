-- ===== src/Mock/Tests.antt =====
-- src/mock.rs: a commitment that the software committer makes, at the software gate.
use proof_of_context_impl.Prelude.{◌≡◌, ◌↔◌, ◌⊎◌, refl, true, false, [], ◌∷◌, arith}
use proof_of_context_impl.Crypto.{Collision}
use proof_of_context_impl.Fixtures.{
  crypto, crypto-IsCrypto, hash, root-IsContext, lookalike, lookalike-IsContext, same_root, root,
  out, commitment, committer, committed, verified, anchor, at_block,
}
use proof_of_context_impl.Error.{ok}
use proof_of_context_impl.Freshness.{settlement, default_base_mainnet}
use proof_of_context_impl.Freshness.Listing.{lists}
use proof_of_context_impl.SortedMap.{get}
use proof_of_context_impl.Anchor.{internally_consistent, tee_drand_consistent}
use proof_of_context_impl.Context.{ExecutionContextRoot}
use proof_of_context_impl.Settle.{clear, rejected}
use proof_of_context_impl.Mock.Oracle.{
  always_fresh, canonical_state_oracle, model_epoch_distance, input_lag_blocks,
}
use proof_of_context_impl.Mock.Gate.{
  MockSettlementGate, collect, fs_violation, is_stale, verdict, verify_and_settle,
}
use proof_of_context_impl.Mock.Gate.Decision.{MayClear, InWindow, settle_bound, clears_iff}
use proof_of_context_impl.Mock.Gate.Report.{Violated, rejection_lists_violations}
use proof_of_context_impl.Mock.Gate.Perish.{IsAging, Answers, clears_earlier}
use proof_of_context_impl.Mock.Flow.{software_gate, commit-clears_iff, disclosure_is_signed_context}

abbrev software : MockSettlementGate
software = software_gate crypto

clocks_agree : internally_consistent false anchor default_base_mainnet ≡ true
unfolding internally_consistent tee_drand_consistent
clocks_agree = refl

commit-clears_iff_example :
    (verify_and_settle crypto false software commitment root (at_block 1300) default_base_mainnet
      ≡ ok clear)
    ↔ ((internally_consistent false anchor default_base_mainnet ≡ true)
        × InWindow commitment (at_block 1300) default_base_mainnet)
commit-clears_iff_example =
    commit-clears_iff crypto false committer root out anchor commitment (at_block 1300)
      default_base_mainnet crypto-IsCrypto committed

settled :
    verify_and_settle crypto false software commitment root (at_block 1300) default_base_mainnet
    ≡ ok clear
settled =
    (commit-clears_iff crypto false committer root out anchor commitment (at_block 1300)
        default_base_mainnet crypto-IsCrypto committed).1
      (clocks_agree, (omega arith, omega arith))

always_fresh-IsAging : IsAging (canonical_state_oracle always_fresh)
unfolding model_epoch_distance input_lag_blocks get
always_fresh-IsAging = record {
  model_ages = λ w now later d e le p q. ground arith;
  input_ages = λ w now later d e le p q. ground arith;
}

model-Answers : Answers (model_epoch_distance always_fresh (hash 1) (at_block 1200))
unfolding model_epoch_distance get
model-Answers = (0, refl)

input-Answers : Answers (input_lag_blocks always_fresh (hash 8) (at_block 1200))
unfolding input_lag_blocks get
input-Answers = (0, refl)

clears_iff_example :
    (verify_and_settle crypto false software commitment root (at_block 1300) default_base_mainnet
      ≡ ok clear)
    ↔ MayClear crypto false software commitment root (at_block 1300) default_base_mainnet
clears_iff_example =
    clears_iff crypto false software commitment root (at_block 1300) default_base_mainnet

clears_earlier_example :
    verify_and_settle crypto false software commitment root (at_block 1200) default_base_mainnet
    ≡ ok clear
clears_earlier_example =
    clears_earlier crypto false software commitment root default_base_mainnet (at_block 1200)
      (at_block 1300) always_fresh-IsAging model-Answers input-Answers (omega arith) (omega arith)
      settled

settled_by_lookalike :
    verify_and_settle crypto false software commitment lookalike
      (at_block 1300)
      default_base_mainnet
    ≡ ok clear
unfolding model_epoch_distance input_lag_blocks get
settled_by_lookalike =
    (clears_iff crypto false software commitment lookalike (at_block 1300) default_base_mainnet).1
      (record {
        verified = verified;
        bound = same_root;
        consistent = clocks_agree;
        window = (omega arith, omega arith);
        model = omega arith;
        input = omega arith;
      })

disclosure_is_signed_context_example : (lookalike ≡ root) ⊎ Collision crypto
disclosure_is_signed_context_example =
    disclosure_is_signed_context crypto false software committer root lookalike out anchor
      commitment (at_block 1300) default_base_mainnet root-IsContext lookalike-IsContext committed
      settled_by_lookalike

-- a context with other weights
abbrev swapped : ExecutionContextRoot
swapped = record root { weights_hash = hash 7 }

too_late :
    verify_and_settle crypto false software commitment root (at_block 1301) default_base_mainnet
    ≡ ok (rejected (settlement ∷ []))
unfolding collect verdict fs_violation is_stale model_epoch_distance input_lag_blocks get
    internally_consistent tee_drand_consistent
too_late =
    settle_bound crypto false software commitment root (at_block 1301) default_base_mainnet verified
      refl

rejection_lists_violations_example :
    (lists settlement (settlement ∷ []) ≡ true)
    ↔ Violated crypto false software commitment root (at_block 1301) default_base_mainnet settlement
rejection_lists_violations_example =
    rejection_lists_violations crypto false software commitment root (at_block 1301)
      default_base_mainnet (settlement ∷ []) too_late settlement
