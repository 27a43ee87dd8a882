-- ===== src/InputFreshness/Earlier.antt =====
-- src/input_freshness.rs: a lag only grows, and a stale witness stays stale.
use proof_of_context_impl.Prelude.{
  ℕ, ◌-◌, ◌≤◌, ◌≡◌, refl, inl, inr, Bool, Option, none, some, List, [], ◌∷◌, arith,
}
use proof_of_context_impl.Error.{ok, ok_or, oracle_unavailable, ◌>>=◌, >>=-eq-ok, ok-injective}
use proof_of_context_impl.SortedMap
use proof_of_context_impl.Prelude.Word.{saturating_sub}
use proof_of_context_impl.Anchor.{TripleAnchor}
use proof_of_context_impl.Context.{Hash32}
use proof_of_context_impl.InputFreshness.Attestation.{InputAttestation}
use proof_of_context_impl.InputFreshness.Witness.{
  InputFreshnessWitness, stalest_from, witness_as_of_block, min_with,
}
use proof_of_context_impl.InputFreshness.Oracle.{BaseOracleInputOracle, input_lag_blocks}
use proof_of_context_impl.InputFreshness.Stalest.{
  IsCurrent, round_passed, passed_round, witness_found,
}

IsCurrent-earlier :
    (now later : TripleAnchor) (enforce : Bool) (h : ℕ) (a : InputAttestation)
    → now.block_height ≤ later.block_height
    → IsCurrent later enforce h a
    → IsCurrent now enforce h a
IsCurrent-earlier now later enforce h a l (inl c) = inl c
IsCurrent-earlier now later enforce h a l (inr c) = inr (omega arith)

-- An earlier clock finds the same block.
stalest_from_earlier :
    (real_anchors : Bool) (now later : TripleAnchor) (enforce : Bool) (rest : List InputAttestation)
    (acc : Option ℕ) (b : Option ℕ)
    → now.block_height ≤ later.block_height
    → stalest_from real_anchors later enforce rest acc ≡ ok b
    → stalest_from real_anchors now enforce rest acc ≡ ok b
unfolding stalest_from
stalest_from_earlier real_anchors now later enforce [] acc b l h = h
stalest_from_earlier real_anchors now later enforce (a ∷ rest) acc b l e =
    let (h, s, c, r) = round_passed real_anchors later enforce a rest acc b e in
    passed_round real_anchors now enforce a rest acc b h s
      (IsCurrent-earlier now later enforce h a l c)
      (stalest_from_earlier real_anchors now later enforce rest (some (min_with acc h)) b l r)

witness_as_of_block_earlier :
    (real_anchors : Bool) (w : InputFreshnessWitness) (now later : TripleAnchor) (enforce : Bool)
    (b : ℕ)
    → now.block_height ≤ later.block_height
    → witness_as_of_block real_anchors w later enforce ≡ ok b
    → witness_as_of_block real_anchors w now enforce ≡ ok b
unfolding witness_as_of_block
witness_as_of_block_earlier real_anchors w now later enforce b l e =
    rw
      (stalest_from_earlier real_anchors now later enforce w.attestations none (some b) l
        (witness_found real_anchors w later enforce b e))
      refl

-- Where the oracle answers at some block it answers at every earlier one, with a lag that is not
-- larger: the lag only grows, and a witness whose horizon has passed stays expired.
pub input_lag_blocks_earlier :
    (real_anchors : Bool) (o : BaseOracleInputOracle) (root : Hash32) (now later : TripleAnchor)
    (d : ℕ)
    → now.block_height ≤ later.block_height
    → input_lag_blocks real_anchors o root later ≡ ok d
    → (e : ℕ) × (input_lag_blocks real_anchors o root now ≡ ok e) × (e ≤ d)
unfolding input_lag_blocks
input_lag_blocks_earlier real_anchors o root now later d l h =
    let (w, s, f) =
      >>=-eq-ok (ok_or (SortedMap.get root o.witnesses) oracle_unavailable)
        (λ witness. witness_as_of_block real_anchors witness later o.enforce_horizon >>= λ as_of.
          ok (saturating_sub later.block_height as_of))
        h in
    let (b, t, g) =
      >>=-eq-ok (witness_as_of_block real_anchors w later o.enforce_horizon)
        (λ as_of. ok (saturating_sub later.block_height as_of)) f in
    (
      now.block_height - b,
      rw (s, witness_as_of_block_earlier real_anchors w now later o.enforce_horizon b l t) refl,
      omega (arith, ok-injective g),
    )
