-- ===== src/InputFreshness/Accept.antt =====
-- src/input_freshness.rs: what a witness must carry to be indexed, and what its signatures leave open.
use proof_of_context_impl.Prelude.{
  ℕ, ◌-◌, ◌/◌, ◌≤◌, ◌⊎◌, ◌↔◌, false, subst, ◌≡◌, refl, Option, some, Bool, true, List, [], ◌∷◌,
  arith, if◌then◌else◌,
}
use proof_of_context_impl.Prelude.Bytes.{Bytes, text, ◌==◌, ==_iff, Pinned, pin_ok, pin_ok_iff}
use proof_of_context_impl.Prelude.Word.{saturating_sub}
use proof_of_context_impl.Prelude.Sort.{sort_by, insert_by}
use proof_of_context_impl.Crypto.{Crypto}
use proof_of_context_impl.Error.{ok, ◌>>=◌, >>=-eq-ok, ok-injective}
use proof_of_context_impl.SortedMap
use proof_of_context_impl.SortedMap.Laws.{get-insert}
use proof_of_context_impl.Anchor.{TripleAnchor, base_block_period_secs}
use proof_of_context_impl.Context.{Hash32}
use proof_of_context_impl.Canonical.{Value, Json}
use proof_of_context_impl.InputFreshness.Attestation.{
  InputAttestation, from_poc_json, verify_signature, signing_message, as_of_block,
}
use proof_of_context_impl.InputFreshness.Witness.{
  InputFreshnessWitness, checked_attestation, checked_attestations, from_poc_blocks, stalest_from,
  input_manifest_root, witness_as_of_block,
}
use proof_of_context_impl.InputFreshness.Oracle.{
  BaseOracleInputOracle, present_witness, input_lag_blocks,
}

-- The attestation with another block in place of its own.
abbrev pub with_block : InputAttestation → ℕ → InputAttestation
with_block a block = record a { anchor_block_height = some block }

abbrev pub single : InputAttestation → InputFreshnessWitness
single a = record { attestations = a ∷ [] }

-- After the presentation of `w` under `root` the oracle answers for that root with the lag of `w`,
-- and for every other root as before.
abbrev pub Indexed :
    BaseOracleInputOracle → InputFreshnessWitness → Hash32 → BaseOracleInputOracle → Type 0
Indexed o w root o' =
    (real_anchors : Bool) (r : Hash32) (now : TripleAnchor)
    → input_lag_blocks real_anchors o' r now ≡ (
        if r == root
        then witness_as_of_block real_anchors w now o.enforce_horizon
          >>= (λ b. ok (saturating_sub now.block_height b))
        else input_lag_blocks real_anchors o r now)

input_lag_blocks-insert :
    (real_anchors : Bool) (o : BaseOracleInputOracle) (w : InputFreshnessWitness) (root r : Hash32)
    (now : TripleAnchor)
    → input_lag_blocks real_anchors
        (record o { witnesses = SortedMap.insert root w o.witnesses })
        r
        now
      ≡ (if r == root
          then witness_as_of_block real_anchors w now o.enforce_horizon
            >>= (λ b. ok (saturating_sub now.block_height b))
          else input_lag_blocks real_anchors o r now)
unfolding input_lag_blocks
input_lag_blocks-insert real_anchors o w root r now =
    rw (get-insert root r w o.witnesses) (ground arith)

module _ (crypto : Crypto) (json : Json) where
  -- An input attestation, signed, under the pinned key where there is one.
  abbrev pub IsAccepted : Option Bytes → InputAttestation → Type 0
  IsAccepted pin a =
      (verify_signature crypto json a ≡ ok tt)
      × (a.freshness_type ≡ text "f_i")
      × Pinned pin a.public_key

  -- The attestations are what the blocks parse to, block by block, and each is accepted.
  abbrev pub Backs : Option Bytes → List Value → List InputAttestation → Type 0
  Backs pin [] [] = Unit
  Backs pin (v ∷ vs) (a ∷ rest) =
      (from_poc_json json v ≡ ok a) × IsAccepted pin a × Backs pin vs rest
  Backs pin _ _ = ⊥

  checked_attestation_lem :
      (pin : Option Bytes) (v : Value) (a : InputAttestation)
      → checked_attestation crypto json pin v ≡ ok a
      → (from_poc_json json v ≡ ok a) × IsAccepted pin a
  unfolding checked_attestation
  checked_attestation_lem pin v a h =
      let (b, parsed, e) = >>=-eq-ok (from_poc_json json v) _ h in
      let facts : ((b.freshness_type == text "f_i") ≡ true)
          × (verify_signature crypto json b ≡ ok tt)
          × (pin_ok pin b.public_key ≡ true)
          × (b ≡ a) =
        ground arith in
      subst (λ x. (from_poc_json json v ≡ ok x) × IsAccepted pin x) facts.3
        (
          parsed,
          (
            facts.1,
            (==_iff b.freshness_type (text "f_i")).0 facts.0,
            (pin_ok_iff pin b.public_key).0 facts.2,
          ),
        )

  checked_attestations_lem :
      (pin : Option Bytes) (vs : List Value) (as' : List InputAttestation)
      → checked_attestations crypto json pin vs ≡ ok as'
      → Backs pin vs as'
  unfolding checked_attestations
  checked_attestations_lem pin [] [] h = tt
  checked_attestations_lem pin [] (a ∷ rest) h = cc h
  checked_attestations_lem pin (v ∷ vs) as' h =
      let (a, c, e) = >>=-eq-ok (checked_attestation crypto json pin v) _ h in
      let (rest, d, f) = >>=-eq-ok (checked_attestations crypto json pin vs) _ e in
      let whole : a ∷ rest ≡ as' = ok-injective f in
      subst (Backs pin (v ∷ vs)) whole (
        (checked_attestation_lem pin v a c).0,
        (checked_attestation_lem pin v a c).1,
        checked_attestations_lem pin vs rest d,
      )

  from_poc_blocks_lem :
      (pin : Option Bytes) (vs : List Value) (w : InputFreshnessWitness)
      → from_poc_blocks crypto json vs pin ≡ ok w
      → Backs pin vs w.attestations
  unfolding from_poc_blocks
  from_poc_blocks_lem pin [] w h = cc h
  from_poc_blocks_lem pin (v ∷ vs) w h =
      let (as', c, e) = >>=-eq-ok (checked_attestations crypto json pin (v ∷ vs)) _ h in
      let same : as' ≡ w.attestations = ground arith in
      subst (Backs pin (v ∷ vs)) same (checked_attestations_lem pin (v ∷ vs) as' c)

  -- Where a witness is presented with success, its blocks parse to attestations that are signed input
  -- attestations, under the pinned key where there is one; the returned root is the root of their
  -- manifest; and from then on the oracle answers for that root with the lag of these attestations,
  -- and for every other root as before.
  pub present_witness_lem :
      (o o' : BaseOracleInputOracle) (vs : List Value) (root : Hash32)
      → present_witness crypto json o vs ≡ ok (root, o')
      → (w : InputFreshnessWitness) × Backs o.expected_pubkey vs w.attestations
        × (root ≡ input_manifest_root crypto json w)
        × Indexed o w root o'
  unfolding present_witness
  present_witness_lem o o' vs root h =
      let (w, c, e) = >>=-eq-ok (from_poc_blocks crypto json vs o.expected_pubkey) _ h in
      let root_w = input_manifest_root crypto json w in
      let (same, indexed) : (root ≡ root_w) × Indexed o w root o' =
        subst (λ p. (p.0 ≡ root_w) × Indexed o w p.0 p.1) (ok-injective e)
          (refl, λ real_anchors r now. input_lag_blocks-insert real_anchors o w root_w r now) in
      (w, from_poc_blocks_lem o.expected_pubkey vs w c, same, indexed)

  accepted-checked_attestation :
      (pin : Option Bytes) (v : Value) (a : InputAttestation)
      → from_poc_json json v ≡ ok a
      → IsAccepted pin a
      → checked_attestation crypto json pin v ≡ ok a
  unfolding checked_attestation
  accepted-checked_attestation pin v a parsed accepted =
      rw
        (
          parsed,
          (==_iff a.freshness_type (text "f_i")).1 accepted.1,
          accepted.0,
          (pin_ok_iff pin a.public_key).1 accepted.2,
        )
        refl

  Backs-checked_attestations :
      (pin : Option Bytes) (vs : List Value) (atts : List InputAttestation)
      → Backs pin vs atts
      → checked_attestations crypto json pin vs ≡ ok atts
  unfolding checked_attestations
  Backs-checked_attestations pin [] [] h = refl
  Backs-checked_attestations pin [] (a ∷ rest) h = absurd h
  Backs-checked_attestations pin (v ∷ vs) [] h = absurd h
  Backs-checked_attestations pin (v ∷ vs) (a ∷ rest) h =
      rw (accepted-checked_attestation pin v a h.0 h.1, Backs-checked_attestations pin vs rest h.2)
        refl

  -- Blocks that parse to signed input attestations, under the pinned key where there is one, are
  -- presented with success if there is at least one.
  pub present_witness_accepts :
      (o : BaseOracleInputOracle) (v : Value) (vs : List Value) (w : InputFreshnessWitness)
      → Backs o.expected_pubkey (v ∷ vs) w.attestations
      → (o' : BaseOracleInputOracle) × (present_witness crypto json o (v ∷ vs)
          ≡ ok (input_manifest_root crypto json w, o'))
  unfolding present_witness from_poc_blocks
  present_witness_accepts o v vs w h = (
    record o { witnesses = SortedMap.insert (input_manifest_root crypto json w) w o.witnesses },
    rw (Backs-checked_attestations o.expected_pubkey (v ∷ vs) w.attestations h) refl,
  )

  -- The block of an attestation is not signed: exchanged for any other block it leaves the signature
  -- valid as before and the manifest root of the witness of this attestation alone the same. That
  -- witness then has the other block exactly when horizons are not enforced or its lag is within
  -- the signed horizon. So with the current block it is never too old.
  pub anchor_is_unsigned :
      (real_anchors : Bool) (a : InputAttestation) (block : ℕ) (now : TripleAnchor) (enforce : Bool)
      → (verify_signature crypto json (with_block a block) ≡ verify_signature crypto json a)
        × (input_manifest_root crypto json (single (with_block a block))
            ≡ input_manifest_root crypto json (single a))
        × ((witness_as_of_block real_anchors (single (with_block a block)) now enforce ≡ ok block)
            ↔ ((enforce ≡ false)
                ⊎ (now.block_height - block ≤ a.freshness_horizon_secs / base_block_period_secs)))
        × (witness_as_of_block real_anchors (single (with_block a now.block_height)) now enforce
            ≡ ok now.block_height)
  unfolding verify_signature input_manifest_root witness_as_of_block stalest_from as_of_block
      signing_message sort_by insert_by
  anchor_is_unsigned real_anchors a block now enforce =
      (refl, refl, (λ h. ground arith, λ h. ground arith), ground arith)
