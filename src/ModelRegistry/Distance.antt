-- ===== src/ModelRegistry/Distance.antt =====
-- src/model_registry.rs: the distance between the committed model and the canonical one.
use proof_of_context_impl.Prelude.{
  ℕ, ◌+◌, ◌≤◌, ◌≡◌, refl, inl, inr, Option, none, some, List, [], ◌∷◌, arith, Option-cases,
}
use proof_of_context_impl.Error.{oracle_unavailable, ok_or, ◌>>=◌, ok-injective, ok}
use proof_of_context_impl.Prelude.Word.{saturating_sub}
use proof_of_context_impl.Context.{Hash32}
use proof_of_context_impl.Anchor.{TripleAnchor}
use proof_of_context_impl.ModelRegistry.{
  ModelEpoch, QuorumModelOracle, last_active, canonical_position_at, position_of,
  model_epoch_distance,
}

-- Absent below every position.
abbrev pub rank : Option ℕ → ℕ
rank none = 0
rank (some k) = k + 1

-- The canonical position only moves forward with the chain.
last_active_mono :
    (es : List ModelEpoch) (i b c : ℕ)
    → b ≤ c
    → rank (last_active i b es) ≤ rank (last_active i c es)
unfolding last_active
last_active_mono [] i b c h = ground arith
last_active_mono (x ∷ es) i b c h = ground (arith, last_active_mono es (i + 1) b c h)

-- The subtraction under the two lookups.
distance_mono :
    (committed canonical later : Option ℕ) (d : ℕ)
    → rank canonical ≤ rank later
    → (ok_or committed oracle_unavailable >>= λ i.
        ok_or canonical oracle_unavailable >>= λ j. ok (saturating_sub j i))
      ≡ ok d
    → (e : ℕ) × ((ok_or committed oracle_unavailable >>= λ i.
          ok_or later oracle_unavailable >>= λ j. ok (saturating_sub j i))
        ≡ ok e)
      × (d ≤ e)
distance_mono none canonical later d h e = absurd (cc e)
distance_mono (some i) none later d h e = absurd (cc e)
distance_mono (some i) (some j) none d h e = absurd (omega arith)
distance_mono (some i) (some j) (some k) d h e =
    (saturating_sub k i, refl, ground (arith, ok-injective e))

-- Against one lineage, a model that has a distance at some block has one at every later block, and
-- the distance does not shrink.
pub model_epoch_distance_mono :
    (o : QuorumModelOracle) (weights_hash : Hash32) (now later : TripleAnchor) (d : ℕ)
    → now.block_height ≤ later.block_height
    → model_epoch_distance o weights_hash now ≡ ok d
    → (e : ℕ) × (model_epoch_distance o weights_hash later ≡ ok e) × (d ≤ e)
unfolding model_epoch_distance canonical_position_at
model_epoch_distance_mono o w now later d h e = elim (Option-cases o.lineage) [
  | inl n ↦ absurd (cc (rw n at e))
  | inr (l, s) ↦ rw s (
      distance_mono (position_of l w) (canonical_position_at l now.block_height)
        (canonical_position_at l later.block_height) d
        (last_active_mono l.epochs 0 now.block_height later.block_height h) (rw s at e))
]
