-- ===== src/InputFreshness/Stalest.antt =====
-- src/input_freshness.rs: the stalest source governs a witness.
use mathlib.Core.List.{Memᴰ}
use proof_of_context_impl.Prelude.{
  subst, sym, ap, ◌↔◌, ℕ, ◌-◌, ◌/◌, ◌≤◌, ◌≡◌, refl, ◌⊎◌, inl, inr, Bool, false, Option, none, some,
  List, [], ◌∷◌, arith, All, Option-cases,
}
use proof_of_context_impl.Error.{
  ok, ok_or, oracle_unavailable, outcome, returned, failed, >>=-eq-ok,
}
use proof_of_context_impl.Anchor.{TripleAnchor, base_block_period_secs}
use proof_of_context_impl.InputFreshness.Attestation.{InputAttestation, as_of_block}
use proof_of_context_impl.InputFreshness.Witness.{
  InputFreshnessWitness, stalest_from, witness_as_of_block, min_with,
}

-- The lag of the block is within the signed horizon, where that is enforced.
abbrev pub IsCurrent : TripleAnchor → Bool → ℕ → InputAttestation → Type 0
IsCurrent now enforce h a =
    (enforce ≡ false) ⊎ (now.block_height - h ≤ a.freshness_horizon_secs / base_block_period_secs)

-- The attestation has a block, not below `b`; its lag is within its horizon where that is enforced.
abbrev pub Admits : Bool → TripleAnchor → Bool → ℕ → InputAttestation → Type 0
Admits real_anchors now enforce b a =
    (h : ℕ) × (as_of_block real_anchors a ≡ ok h) × (b ≤ h) × IsCurrent now enforce h a

min_with_source :
    (acc : Option ℕ) (h b : ℕ)
    → ◌≡◌ {A = Option ℕ} (some (min_with acc h)) (some b)
    → (acc ≡ some b) ⊎ (h ≡ b)
min_with_source acc h b e = ground arith

-- One of the attestations has the block.
abbrev pub Attained : Bool → ℕ → InputFreshnessWitness → Type 0
Attained real_anchors b w =
    (a : InputAttestation) × Memᴰ a w.attestations × (as_of_block real_anchors a ≡ ok b)

module _ (real_anchors : Bool) (now : TripleAnchor) (enforce : Bool) where
  pub round_passed :
      (a : InputAttestation) (rest : List InputAttestation) (acc b : Option ℕ)
      → stalest_from real_anchors now enforce (a ∷ rest) acc ≡ ok b
      → (h : ℕ) × (as_of_block real_anchors a ≡ ok h)
        × IsCurrent now enforce h a
        × (stalest_from real_anchors now enforce rest (some (min_with acc h)) ≡ ok b)
  unfolding stalest_from
  round_passed a rest acc b e = elim (outcome (as_of_block real_anchors a)) [
    | failed f n ↦ absurd (ground arith)
    | returned h s ↦ (h, s, ground arith, ground arith)
  ]

  pub passed_round :
      (a : InputAttestation) (rest : List InputAttestation) (acc b : Option ℕ) (h : ℕ)
      → as_of_block real_anchors a ≡ ok h
      → IsCurrent now enforce h a
      → stalest_from real_anchors now enforce rest (some (min_with acc h)) ≡ ok b
      → stalest_from real_anchors now enforce (a ∷ rest) acc ≡ ok b
  unfolding stalest_from
  passed_round a rest acc b h s c e = ground arith

  -- The running minimum: what it admits, and where it comes from.
  stalest_from_lem :
      (rest : List InputAttestation) (acc : Option ℕ) (b : ℕ)
      → stalest_from real_anchors now enforce rest acc ≡ ok (some b)
      → All (Admits real_anchors now enforce b) rest
        × ((m : ℕ) → acc ≡ some m → b ≤ m)
        × ((acc ≡ some b)
            ⊎ ((a : InputAttestation) × Memᴰ a rest × (as_of_block real_anchors a ≡ ok b)))
  unfolding stalest_from
  stalest_from_lem [] acc b h = (tt, ground arith, inl (ground arith))
  stalest_from_lem (a ∷ rest) acc b e =
      let (h, s, c, r) = round_passed a rest acc (some b) e in
      let (all, below, source) = stalest_from_lem rest (some (min_with acc h)) b r in
      let least = below (min_with acc h) refl in
      (
        ((h, s, ground arith, c), all),
        λ m k. ground arith,
        elim source [
          | inl f ↦ elim (min_with_source acc h b f) [
            | inl t ↦ inl t
            | inr t ↦ inr (a, Memᴰ.head refl, cc (s, t))
          ]
          | inr (x, m, f) ↦ inr (x, Memᴰ.tail m, f)
        ],
      )

  total_from :
      (rest : List InputAttestation) (m b : ℕ)
      → All (Admits real_anchors now enforce b) rest
      → (r : ℕ) × (stalest_from real_anchors now enforce rest (some m) ≡ ok (some r))
  unfolding stalest_from
  total_from [] m b h = (m, refl)
  total_from (a ∷ rest) m b h =
      let (x, s, le, c) = h.0 in
      let (r, e) = total_from rest (min_with (some m) x) b h.1 in
      (r, passed_round a rest (some m) (some r) x s c e)

  total_of_member :
      (atts : List InputAttestation) (a : InputAttestation) (b : ℕ)
      → All (Admits real_anchors now enforce b) atts
      → Memᴰ a atts
      → (r : ℕ) × (stalest_from real_anchors now enforce atts none ≡ ok (some r))
  total_of_member [] a b h m = elim m [ ]
  total_of_member (x ∷ rest) a b h m =
      let (y, s, le, c) = h.0 in
      let (r, e) = total_from rest y b h.1 in (r, passed_round x rest none (some r) y s c e)

  Admits-member :
      (atts : List InputAttestation) (a : InputAttestation) (b : ℕ)
      → All (Admits real_anchors now enforce b) atts
      → Memᴰ a atts
      → Admits real_anchors now enforce b a
  Admits-member [] a b h m = elim m [ ]
  Admits-member (x ∷ rest) a b h (Memᴰ.head e) =
      subst (Admits real_anchors now enforce b) (sym e) h.0
  Admits-member (x ∷ rest) a b h (Memᴰ.tail m) = Admits-member rest a b h.1 m

-- The least block is not above the block of any attestation.
least_lem :
    (real_anchors : Bool) (w : InputFreshnessWitness) (now : TripleAnchor) (enforce : Bool)
    (b v : ℕ)
    → All (Admits real_anchors now enforce b) w.attestations
    → Attained real_anchors v w
    → b ≤ v
least_lem real_anchors w now enforce b v all found =
    let (a, member, block) = found in
    let (x, s, le, c) = Admits-member real_anchors now enforce w.attestations a b all member in
    ground arith

pub witness_found :
    (real_anchors : Bool) (w : InputFreshnessWitness) (now : TripleAnchor) (enforce : Bool) (b : ℕ)
    → witness_as_of_block real_anchors w now enforce ≡ ok b
    → stalest_from real_anchors now enforce w.attestations none ≡ ok (some b)
unfolding witness_as_of_block
witness_found real_anchors w now enforce b e =
    let (found, s, f) =
      >>=-eq-ok (stalest_from real_anchors now enforce w.attestations none)
        (λ min_block. ok_or min_block oracle_unavailable) e in
    elim (Option-cases found) [
      | inl n ↦ absurd (cc (rw n at f))
      | inr (m, k) ↦ cc (s, k, rw k at f)
    ]

stalest-Attained :
    (real_anchors : Bool) (w : InputFreshnessWitness) (now : TripleAnchor) (enforce : Bool) (b : ℕ)
    → witness_as_of_block real_anchors w now enforce ≡ ok b
    → All (Admits real_anchors now enforce b) w.attestations × Attained real_anchors b w
stalest-Attained real_anchors w now enforce b e =
    let found =
      stalest_from_lem real_anchors now enforce w.attestations none b
        (witness_found real_anchors w now enforce b e) in
    (found.0, elim found.2 [ inl n ↦ absurd (cc n) | inr f ↦ f ])

-- The block of a witness is `b` exactly when `b` is the least among the blocks of its attestations:
-- one of them has it, and each has a block that is not below it and, where horizons are enforced, a
-- lag within its own signed horizon. So the witness has a block whenever it has attestations, all
-- with a block and none expired.
pub witness_as_of_block_iff :
    (real_anchors : Bool) (w : InputFreshnessWitness) (now : TripleAnchor) (enforce : Bool) (b : ℕ)
    → (witness_as_of_block real_anchors w now enforce ≡ ok b)
      ↔ (All (Admits real_anchors now enforce b) w.attestations × Attained real_anchors b w)
unfolding witness_as_of_block
witness_as_of_block_iff real_anchors w now enforce b = (
  stalest-Attained real_anchors w now enforce b,
  λ h.
      let (all, at_b) = h in
      let (a, member, block) = at_b in
      let (r, run) = total_of_member real_anchors now enforce w.attestations a b all member in
      let found : witness_as_of_block real_anchors w now enforce ≡ ok r = rw run refl in
      let (all_r, attained) = stalest-Attained real_anchors w now enforce r found in
      let below = least_lem real_anchors w now enforce b r all attained in
      let above = least_lem real_anchors w now enforce r b all_r at_b in
      let same : r ≡ b = omega arith in rw run (ap ok same),
)
