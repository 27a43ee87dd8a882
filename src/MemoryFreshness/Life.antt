-- ===== src/MemoryFreshness/Life.antt =====
-- examples/memory_freshness.rs: a memory from its attestation to its reads.
use mathlib.Core.List.{Permᴰ}
use proof_of_context_impl.Prelude.{
  ◌≡◌, ◌≢◌, ap, sym, ◌∙◌, ◌⊎◌, inl, inr, ◌↔◌, refl, List, some, none, All, Option-cases, arith,
}
use proof_of_context_impl.Prelude.Bytes.{Bytes}
use proof_of_context_impl.Crypto.{Crypto, IsCrypto, CollisionAmong}
use proof_of_context_impl.Error.{ok}
use proof_of_context_impl.Freshness.{FreshnessThresholds}
use proof_of_context_impl.Anchor.{TripleAnchor}
use proof_of_context_impl.Context.{Hash32}
use proof_of_context_impl.Commitment.{signing_digest}
use proof_of_context_impl.Mock.Verifier.{verify, verify_attestation}
use proof_of_context_impl.Mock.Gate.Decision.{InWindow}
use proof_of_context_impl.Renewal.{
  RenewalOutcome, still_valid, protected_by_prospective_only, expired_require_recommit, evaluate,
}
use proof_of_context_impl.Renewal.Window.{evaluate_iff}
use proof_of_context_impl.MemoryFreshness.{MemoryEntry, Pair, source_set_root, attest, read}
use proof_of_context_impl.MemoryFreshness.Sources.{
  Distinct, HasLength, HashesOne, source_set_root_order, source_set_root-binds,
}

-- The verifier of the crate accepts every attestation of a memory, whatever its sources and fact.
attest-verify :
    (crypto : Crypto) (key : Bytes) (sources : List Pair) (fact : Bytes) (a : TripleAnchor)
    → IsCrypto crypto
    → verify crypto (attest crypto key sources fact a) ≡ ok tt
unfolding attest verify verify_attestation signing_digest
attest-verify crypto key sources fact a laws = rw (laws.key_valid key, laws.sign_valid key _) refl

attest-fields :
    (crypto : Crypto) (key : Bytes) (sources : List Pair) (fact : Bytes) (a : TripleAnchor)
    → ((attest crypto key sources fact a).context_root ≡ source_set_root crypto sources)
      × ((attest crypto key sources fact a).anchor ≡ a)
unfolding attest
attest-fields crypto key sources fact a = (refl, refl)

-- A read answers with what the renewal policy says, and never fails.
read_iff :
    (entry : MemoryEntry) (root : Hash32) (now : TripleAnchor) (t : FreshnessThresholds)
    (verdict : RenewalOutcome)
    → (read entry root now t ≡ some verdict) ↔ (evaluate entry.attestation root now t ≡ ok verdict)
unfolding read evaluate
read_iff entry root now t verdict = (λ h. ground arith, λ h. ground arith)

read-ne-none :
    (entry : MemoryEntry) (root : Hash32) (now : TripleAnchor) (t : FreshnessThresholds)
    → read entry root now t ≢ none
unfolding read evaluate
read-ne-none entry root now t h = ground arith

read_total :
    (entry : MemoryEntry) (root : Hash32) (now : TripleAnchor) (t : FreshnessThresholds)
    → (verdict : RenewalOutcome) × (read entry root now t ≡ some verdict)
read_total entry root now t = elim (Option-cases (read entry root now t)) [
  | inl stuck ↦ absurd (read-ne-none entry root now t stuck)
  | inr found ↦ found
]

module _ (crypto : Crypto) (key : Bytes) (sources : List Pair) (verified_at : TripleAnchor)
    (entry : MemoryEntry) (current : List Pair) (now : TripleAnchor) (t : FreshnessThresholds)
    (attested : entry.attestation ≡ attest crypto key sources entry.fact verified_at) where
  -- What a read of the entry gives against the current sources.
  abbrev pub Reads : RenewalOutcome → Type 0
  Reads verdict = read entry (source_set_root crypto current) now t ≡ some verdict

  -- The blocks in which a memory with other sources is still served as protected.
  abbrev pub InGrace : Type 0
  InGrace = InWindow entry.attestation now t

  verdict_iff :
      (Reads still_valid ↔ (entry.attestation.context_root ≡ source_set_root crypto current))
      × (Reads protected_by_prospective_only
          ↔ ((entry.attestation.context_root ≢ source_set_root crypto current) × InGrace))
      × (Reads expired_require_recommit
          ↔ ((entry.attestation.context_root ≢ source_set_root crypto current) × (¬ InGrace)))
  verdict_iff =
      let root = source_set_root crypto current in
      let verdicts = evaluate_iff entry.attestation root now t in
      let at = λ (v : RenewalOutcome). read_iff entry root now t v in
      (
        (λ h. verdicts.0.0 ((at still_valid).0 h), λ h. (at still_valid).1 (verdicts.0.1 h)),
        (
          λ h. verdicts.1.0 ((at protected_by_prospective_only).0 h),
          λ h. (at protected_by_prospective_only).1 (verdicts.1.1 h),
        ),
        (
          λ h. verdicts.2.0 ((at expired_require_recommit).0 h),
          λ h. (at expired_require_recommit).1 (verdicts.2.1 h),
        ),
      )

  same_root : entry.attestation.context_root ≡ source_set_root crypto sources
  same_root =
      ap (λ c. c.context_root) attested
      ∙ (attest-fields crypto key sources entry.fact verified_at).0

  answers :
      (verdict : RenewalOutcome)
      → Reads verdict
      → Reads still_valid
        ⊎ ((InGrace × Reads protected_by_prospective_only)
            ⊎ ((¬ InGrace) × Reads expired_require_recommit))
  answers still_valid h = inl h
  answers protected_by_prospective_only h = inr (inl ((verdict_iff.1.0 h).1, h))
  answers expired_require_recommit h = inr (inr ((verdict_iff.2.0 h).1, h))

  -- A read never fails. It serves the memory as valid if the current sources are those of the
  -- attestation in any order, given that no two of these share an id; and only then, unless
  -- two of the inputs hashed for the two roots, the contents of the sources among them, are a
  -- collision of SHA-256. Otherwise it flags the memory while the grace window is open, and as
  -- expired outside it.
  pub read_lem :
      IsCrypto crypto
      → Distinct sources
      → All HasLength sources
      → All HasLength current
      → (Permᴰ sources current → Reads still_valid)
        × (Reads still_valid
            → Permᴰ sources current ⊎ CollisionAmong crypto (HashesOne crypto sources current))
        × (Reads still_valid
            ⊎ ((InGrace × Reads protected_by_prospective_only)
                ⊎ ((¬ InGrace) × Reads expired_require_recommit)))
  read_lem laws distinct v w = (
    λ p. verdict_iff.0.1 (same_root ∙ source_set_root_order crypto sources current distinct p),
    λ h. source_set_root-binds crypto laws sources current v w (sym same_root ∙ verdict_iff.0.0 h),
    let (verdict, h) = read_total entry (source_set_root crypto current) now t in answers verdict h,
  )
