-- ===== src/Mock/Gate/Perish.antt =====
-- src/mock.rs: commitments perish. What the gate's verdict does as the settlement clock advances.
use proof_of_context_impl.Prelude.{ℕ, ◌+◌, ◌≤◌, ◌<◌, ◌≡◌, ◌≢◌, refl, Bool, true, arith}
use proof_of_context_impl.Crypto.{Crypto}
use proof_of_context_impl.Error.{PocError, Result, ok, err}
use proof_of_context_impl.Freshness.{FreshnessThresholds}
use proof_of_context_impl.Anchor.{TripleAnchor}
use proof_of_context_impl.Context.{Hash32, ExecutionContextRoot}
use proof_of_context_impl.Commitment.{FreshnessCommitment}
use proof_of_context_impl.Oracle.{CanonicalStateOracle, SplitOracle, split_oracle}
use proof_of_context_impl.Settle.{clear, is_settlement_eligible}
use proof_of_context_impl.Mock.Gate.{MockSettlementGate, verify_and_settle, settlement_gate}
use proof_of_context_impl.Mock.Gate.Decision.{Within, clears_iff}

-- The oracle has an answer.
abbrev pub Answers : Result PocError ℕ → Type 0
Answers r = (d : ℕ) × (r ≡ ok d)

-- An oracle whose distances do not shrink from one block to a later one, where it answers at both.
pub record IsAging (o : CanonicalStateOracle) : Type 0 where
  pub model_ages :
      (w : Hash32) (now later : TripleAnchor) (d e : ℕ)
      → now.block_height ≤ later.block_height
      → o.model_epoch_distance w now ≡ ok d
      → o.model_epoch_distance w later ≡ ok e
      → d ≤ e
  pub input_ages :
      (w : Hash32) (now later : TripleAnchor) (d e : ℕ)
      → now.block_height ≤ later.block_height
      → o.input_lag_blocks w now ≡ ok d
      → o.input_lag_blocks w later ≡ ok e
      → d ≤ e

-- A smaller distance is within the limits of a larger one.
Within-of_le :
    (r s : Result PocError ℕ) (limit : ℕ)
    → Answers r
    → ((d e : ℕ) → r ≡ ok d → s ≡ ok e → d ≤ e)
    → Within s limit
    → Within r limit
Within-of_le (ok d) (ok e) limit a le h = omega (arith, le d e refl refl)
Within-of_le (ok d) (err x) limit a le h = absurd h
Within-of_le (err x) s limit a le h = cc (a.1)

-- A composition ages if its two axes do.
pub split-IsAging : (s : SplitOracle) → IsAging s.model → IsAging s.input → IsAging (split_oracle s)
split-IsAging s m i = record { model_ages = m.model_ages; input_ages = i.input_ages }

module _ (crypto : Crypto) (real_anchors : Bool) (g : MockSettlementGate) (c : FreshnessCommitment)
    (root : ExecutionContextRoot) (t : FreshnessThresholds) where
  -- Under an oracle that ages and answers now, a commitment that clears at a later block also clears
  -- now, if now is at or after its commit block: once it has become stale it stays stale.
  pub clears_earlier :
      (now later : TripleAnchor)
      → IsAging g.oracle
      → Answers (g.oracle.model_epoch_distance root.weights_hash now)
      → Answers (g.oracle.input_lag_blocks root.input_manifest_root now)
      → c.anchor.block_height ≤ now.block_height
      → now.block_height ≤ later.block_height
      → verify_and_settle crypto real_anchors g c root later t ≡ ok clear
      → verify_and_settle crypto real_anchors g c root now t ≡ ok clear
  clears_earlier now later ages model_known input_known from to h =
      let m = (clears_iff crypto real_anchors g c root later t).0 h in
      let weights = root.weights_hash in
      let manifest = root.input_manifest_root in
      (clears_iff crypto real_anchors g c root now t).1 (record {
        verified = m.verified;
        bound = m.bound;
        consistent = m.consistent;
        window = omega (arith, m.window.1);
        model =
            Within-of_le (g.oracle.model_epoch_distance weights now)
              (g.oracle.model_epoch_distance weights later) t.max_fm_epochs model_known
              (λ d e. ages.model_ages weights now later d e to) m.model;
        input =
            Within-of_le (g.oracle.input_lag_blocks manifest now)
              (g.oracle.input_lag_blocks manifest later) t.max_fi_blocks input_known
              (λ d e. ages.input_ages manifest now later d e to) m.input;
      })

  eligible-clears :
      (now : TripleAnchor)
      → is_settlement_eligible (settlement_gate crypto real_anchors g) c root now t ≡ ok true
      → verify_and_settle crypto real_anchors g c root now t ≡ ok clear
  unfolding is_settlement_eligible
  eligible-clears now h = ground arith

  -- Past the settlement window a commitment is never eligible, whatever the verifier and the oracle
  -- answer and whatever context is disclosed.
  pub expired_is_not_eligible :
      (now : TripleAnchor)
      → c.anchor.block_height + t.max_fs_blocks < now.block_height
      → is_settlement_eligible (settlement_gate crypto real_anchors g) c root now t ≢ ok true
  expired_is_not_eligible now late h =
      let m = (clears_iff crypto real_anchors g c root now t).0 (eligible-clears now h) in
      absurd (omega (arith, m.window.1))
