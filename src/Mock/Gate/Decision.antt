-- ===== src/Mock/Gate/Decision.antt =====
-- src/mock.rs: when the gate lets a payment clear.
use proof_of_context_impl.Prelude.{ℕ, ◌+◌, ◌≤◌, ◌≡◌, ap, ◌∙◌, ◌↔◌, Bool, true, false, not, arith}
use proof_of_context_impl.Prelude.Bytes.{==_iff}
use proof_of_context_impl.Crypto.{Crypto}
use proof_of_context_impl.Error.{PocError, Result, ok, err}
use proof_of_context_impl.Freshness.{FreshnessThresholds}
use proof_of_context_impl.Anchor.{TripleAnchor, internally_consistent}
use proof_of_context_impl.Context.{ExecutionContextRoot, merkle_root}
use proof_of_context_impl.Commitment.{FreshnessCommitment}
use proof_of_context_impl.Settle.{clear}
use proof_of_context_impl.Mock.Gate.{
  MockSettlementGate, is_stale, fs_violation, collect, verdict, verify_and_settle,
}

-- An oracle vouches for a state at most `limit` away.
abbrev pub Within : Result PocError ℕ → ℕ → Type 0
Within (ok distance) limit = distance ≤ limit
Within (err e) limit = ⊥

pub is_stale_iff : (r : Result PocError ℕ) (limit : ℕ) → (is_stale r limit ≡ false) ↔ Within r limit
unfolding is_stale
is_stale_iff (ok d) limit = (λ h. ground arith, λ h. ground arith)
is_stale_iff (err e) limit = (λ h. cc, λ h. absurd h)

-- The settlement window [commit, commit + max_fs_blocks].
abbrev pub InWindow : FreshnessCommitment → TripleAnchor → FreshnessThresholds → Type 0
InWindow c now t =
    (c.anchor.block_height ≤ now.block_height)
    × (now.block_height ≤ c.anchor.block_height + t.max_fs_blocks)

pub fs_violation_iff :
    (c : FreshnessCommitment) (now : TripleAnchor) (t : FreshnessThresholds)
    → (fs_violation c now t ≡ false) ↔ InWindow c now t
unfolding fs_violation
fs_violation_iff c now t = (λ h. ground arith, λ h. ground arith)

pub collect_clear :
    (a b c d : Bool)
    → (verdict (collect a b c d) ≡ clear) ↔ (a ≡ false) × (b ≡ false) × (c ≡ false) × (d ≡ false)
unfolding collect verdict
collect_clear a b c d = (λ h. ground arith, λ h. ground arith)

module _ (crypto : Crypto) (real_anchors : Bool) (g : MockSettlementGate) (c : FreshnessCommitment)
    (root : ExecutionContextRoot) (now : TripleAnchor) (t : FreshnessThresholds) where
  -- What the paper asks of a payment that clears.
  pub record MayClear : Type 0 where
    pub verified : g.verifier.verify c ≡ ok tt
    pub bound : merkle_root crypto root ≡ c.context_root
    pub consistent : internally_consistent real_anchors c.anchor t ≡ true
    pub window : InWindow c now t
    pub model : Within (g.oracle.model_epoch_distance root.weights_hash now) t.max_fm_epochs
    pub input : Within (g.oracle.input_lag_blocks root.input_manifest_root now) t.max_fi_blocks

  -- Past the integrity checks, the verdict is on the four tests.
  pub settle_bound :
      g.verifier.verify c ≡ ok tt
      → merkle_root crypto root ≡ c.context_root
      → verify_and_settle crypto real_anchors g c root now t
        ≡ ok (
            verdict (
              collect
                (not (internally_consistent real_anchors c.anchor t))
                (fs_violation c now t)
                (is_stale (g.oracle.model_epoch_distance root.weights_hash now) t.max_fm_epochs)
                (is_stale
                  (g.oracle.input_lag_blocks root.input_manifest_root now)
                  t.max_fi_blocks)))
  unfolding verify_and_settle
  settle_bound v b = rw (v, (==_iff (merkle_root crypto root) c.context_root).1 b)

  -- The gate clears a commitment exactly when its signature and attestation verify, the disclosed
  -- context hashes to the committed root, the clocks of the commitment agree with one another, the
  -- settlement block lies in the window, and the oracle vouches for the model and for the inputs
  -- within their thresholds.
  pub clears_iff : (verify_and_settle crypto real_anchors g c root now t ≡ ok clear) ↔ MayClear
  unfolding verify_and_settle
  clears_iff =
      let model = g.oracle.model_epoch_distance root.weights_hash now in
      let lag = g.oracle.input_lag_blocks root.input_manifest_root now in
      let consistent = internally_consistent real_anchors c.anchor t in
      let late = fs_violation c now t in
      let model_stale = is_stale model t.max_fm_epochs in
      let input_stale = is_stale lag t.max_fi_blocks in
      let root_iff = ==_iff (merkle_root crypto root) c.context_root in
      let fields = collect_clear (not consistent) late model_stale input_stale in
      (
        λ h.
            let fresh : (g.verifier.verify c ≡ ok tt)
                × (merkle_root crypto root ≡ c.context_root)
                × (consistent ≡ true)
                × (late ≡ false)
                × (model_stale ≡ false)
                × (input_stale ≡ false) =
              ground (arith, root_iff, fields) in
            record {
              verified = fresh.0;
              bound = fresh.1;
              consistent = fresh.2;
              window = (fs_violation_iff c now t).0 fresh.3;
              model = (is_stale_iff model t.max_fm_epochs).0 fresh.4;
              input = (is_stale_iff lag t.max_fi_blocks).0 fresh.5;
            },
        λ m.
            settle_bound m.verified m.bound
            ∙ ap ok (
                fields.1 (
                  ground arith,
                  (fs_violation_iff c now t).1 m.window,
                  (is_stale_iff model t.max_fm_epochs).1 m.model,
                  (is_stale_iff lag t.max_fi_blocks).1 m.input,
                )),
      )
