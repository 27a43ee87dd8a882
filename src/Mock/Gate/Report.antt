-- ===== src/Mock/Gate/Report.antt =====
-- src/mock.rs: what the gate reports when it does not clear.
use proof_of_context_impl.Prelude.{
  ◌≡◌, ◌≢◌, ◌↔◌, ◌⊎◌, inl, inr, Bool, true, false, not, List, [], ◌∷◌, arith,
}
use proof_of_context_impl.Prelude.Bytes.{==_iff}
use proof_of_context_impl.Crypto.{Crypto}
use proof_of_context_impl.Error.{PocError, root_mismatch, ok, err, returned, failed, outcome}
use proof_of_context_impl.Freshness.{
  FreshnessType, computational, model, input, settlement, FreshnessThresholds,
}
use proof_of_context_impl.Freshness.Listing.{lists, not-true_iff}
use proof_of_context_impl.Anchor.{TripleAnchor, internally_consistent}
use proof_of_context_impl.Context.{ExecutionContextRoot, merkle_root}
use proof_of_context_impl.Commitment.{FreshnessCommitment}
use proof_of_context_impl.Settle.{SettlementResult, rejected}
use proof_of_context_impl.Mock.Gate.{
  MockSettlementGate, is_stale, fs_violation, collect, verdict, verify_and_settle,
}
use proof_of_context_impl.Mock.Gate.Decision.{
  Within, is_stale_iff, InWindow, fs_violation_iff, settle_bound,
}

-- The four tests, as a function of the axis.
abbrev flag : Bool → Bool → Bool → Bool → FreshnessType → Bool
flag a b c d computational = a
flag a b c d settlement = b
flag a b c d model = c
flag a b c d input = d

lists-collect : (a b c d : Bool) (f : FreshnessType) → lists f (collect a b c d) ≡ flag a b c d f
unfolding collect
lists-collect a b c d computational = ground arith
lists-collect a b c d model = ground arith
lists-collect a b c d input = ground arith
lists-collect a b c d settlement = ground arith

verdict-rejected : (l vs : List FreshnessType) → verdict l ≡ rejected vs → l ≡ vs
unfolding verdict
verdict-rejected [] vs h = cc
verdict-rejected (v ∷ l) vs h = cc

module _ (crypto : Crypto) (real_anchors : Bool) (g : MockSettlementGate) (c : FreshnessCommitment)
    (root : ExecutionContextRoot) (now : TripleAnchor) (t : FreshnessThresholds) where
  -- The axes on which a commitment is stale, stated without the code's tests.
  abbrev pub Violated : FreshnessType → Type 0
  Violated computational = internally_consistent real_anchors c.anchor t ≡ false
  Violated settlement = ¬ InWindow c now t
  Violated model = ¬ Within (g.oracle.model_epoch_distance root.weights_hash now) t.max_fm_epochs
  Violated input = ¬ Within (g.oracle.input_lag_blocks root.input_manifest_root now) t.max_fi_blocks

  flag_iff :
      (f : FreshnessType)
      → (flag
            (not (internally_consistent real_anchors c.anchor t))
            (fs_violation c now t)
            (is_stale (g.oracle.model_epoch_distance root.weights_hash now) t.max_fm_epochs)
            (is_stale (g.oracle.input_lag_blocks root.input_manifest_root now) t.max_fi_blocks)
            f
          ≡ true)
        ↔ Violated f
  flag_iff computational = (λ h. ground arith, λ h. ground arith)
  flag_iff settlement = not-true_iff (fs_violation c now t) (fs_violation_iff c now t)
  flag_iff model = not-true_iff _ (is_stale_iff _ _)
  flag_iff input = not-true_iff _ (is_stale_iff _ _)

  -- The gate aborts with an error exactly when the verifier fails, with the verifier's error, or when
  -- the disclosed context does not hash to the committed root, with `root_mismatch`; staleness of any
  -- kind is never an error.
  pub aborts_iff :
      (e : PocError)
      → (verify_and_settle crypto real_anchors g c root now t ≡ err e) ↔ (
          (g.verifier.verify c ≡ err e)
          ⊎ ((g.verifier.verify c ≡ ok tt)
              × (merkle_root crypto root ≢ c.context_root)
              × (e ≡ root_mismatch)))
  unfolding verify_and_settle
  aborts_iff e =
      let root_iff = ==_iff (merkle_root crypto root) c.context_root in
      (
        λ h. elim (outcome (g.verifier.verify c)) [
          | returned a v ↦ inr (
            ground arith,
            λ b. cc (settle_bound crypto real_anchors g c root now t v b),
            ground arith,
          )
          | failed e' v ↦ inl (ground arith)
        ],
        elim [ inl v ↦ rw v | inr r ↦ ground (arith, root_iff) ],
      )

  not_aborted :
      (r : SettlementResult)
      → verify_and_settle crypto real_anchors g c root now t ≡ ok r
      → (g.verifier.verify c ≡ ok tt) × (merkle_root crypto root ≡ c.context_root)
  unfolding verify_and_settle
  not_aborted r h = ground (arith, ==_iff (merkle_root crypto root) c.context_root)

  -- A rejection lists a freshness type exactly when the commitment is stale on that axis: every
  -- reason is reported and no other, whatever the other axes are.
  pub rejection_lists_violations :
      (vs : List FreshnessType)
      → verify_and_settle crypto real_anchors g c root now t ≡ ok (rejected vs)
      → (f : FreshnessType) → (lists f vs ≡ true) ↔ Violated f
  rejection_lists_violations vs h f =
      let (v, b) = not_aborted (rejected vs) h in
      let reasons =
        verdict-rejected
          (collect (not (internally_consistent real_anchors c.anchor t)) (fs_violation c now t)
            (is_stale (g.oracle.model_epoch_distance root.weights_hash now) t.max_fm_epochs)
            (is_stale (g.oracle.input_lag_blocks root.input_manifest_root now) t.max_fi_blocks))
          vs (cc (settle_bound crypto real_anchors g c root now t v b)) in
      rw (← reasons, lists-collect) (flag_iff f)
