-- ===== src/Darkpool/Decision.antt =====
-- src/darkpool.rs: when a negotiated trade clears, and what a rejection says.
use proof_of_context_impl.Prelude.{
  ℕ, ◌≡◌, ◌≢◌, ◌↔◌, ◌∙◌, refl, sym, ap, true, List, [], ◌∷◌, ◌++◌, All, inl, inr, subst, append-nil,
  append_assoc, List-cases,
}
use proof_of_context_impl.Crypto.{Crypto}
use proof_of_context_impl.Error.{ok, ok-injective, >>-eq-ok, >>=-eq-ok}
use proof_of_context_impl.Freshness.{FreshnessType}
use proof_of_context_impl.Freshness.Listing.{lists}
use proof_of_context_impl.Commitment.{CommitmentVerifier}
use proof_of_context_impl.PriceFreshness.{PriceFreshnessOracle}
use proof_of_context_impl.Darkpool.{
  DarkPoolThresholds, PartyRole, PartyContext, PartyVerdict, clear, rejected, check_integrity,
  violations_of, push_failing, check_parties, outcome_of, verify_party_contexts,
}
use proof_of_context_impl.Darkpool.Party.{
  IsIntegral, IsFresh, PartyViolated, integrity_iff, no_violations_iff, violations_iff,
}

push_failing_lem :
    (role : PartyRole) (found : List FreshnessType) (acc : List PartyVerdict)
    → found ≢ []
    → push_failing role found acc ≡ acc ++ record { role = role; violations = found } ∷ []
push_failing_lem role [] acc h = absurd (h refl)
push_failing_lem role (v ∷ vs) acc h = refl

outcome_clear : (out : List PartyVerdict) → outcome_of out ≡ clear → out ≡ []
outcome_clear [] h = refl
outcome_clear (v ∷ vs) h = cc

outcome_rejected :
    (out vs : List PartyVerdict) → outcome_of out ≡ rejected vs → (vs ≢ []) × (out ≡ vs)
outcome_rejected [] vs h = cc
outcome_rejected (x ∷ out) vs h = (λ e. cc, cc)

module _ (crypto : Crypto) (verifier : CommitmentVerifier) (prices : PriceFreshnessOracle) (now : ℕ)
    (t : DarkPoolThresholds) where
  -- The verdicts for a list of parties of which each is integral: none for a fresh party, and for any
  -- other one with its role that lists exactly the axes on which it is stale.
  pub data Judged : List PartyContext → List PartyVerdict → Type 0 where
    done : Judged [] []
    pass :
        {p : PartyContext} {ps : List PartyContext} {vs : List PartyVerdict}
        → IsIntegral crypto verifier prices now t p
        → IsFresh crypto verifier prices now t p
        → Judged ps vs
        → Judged (p ∷ ps) vs
    fail :
        {p : PartyContext} {ps : List PartyContext} {vs : List PartyVerdict}
        (found : List FreshnessType)
        → IsIntegral crypto verifier prices now t p
        → found ≢ []
        → ((f : FreshnessType)
            → (lists f found ≡ true) ↔ PartyViolated crypto verifier prices now t p f)
        → Judged ps vs
        → Judged (p ∷ ps) (record { role = p.role; violations = found } ∷ vs)

  -- From any verdicts so far, the loop adds those of the parties that it judges.
  check_parties-Judged :
      (ps : List PartyContext) (acc out : List PartyVerdict)
      → check_parties crypto verifier prices now t ps acc ≡ ok out
      → (vs : List PartyVerdict) × (out ≡ acc ++ vs) × Judged ps vs
  unfolding check_parties
  check_parties-Judged [] acc out h = ([], sym (ok-injective h) ∙ sym (append-nil acc), done)
  check_parties-Judged (p ∷ ps) acc out h =
      let found = violations_of p prices now t in
      let (checked, rest) =
        >>-eq-ok (check_integrity crypto verifier p)
          (check_parties crypto verifier prices now t ps (push_failing p.role found acc)) h in
      let integral = (integrity_iff crypto verifier prices now t p).0 checked in
      let (vs, e, judged) = check_parties-Judged ps (push_failing p.role found acc) out rest in
      elim (List-cases found) [
        | inl none ↦ (
          vs,
          e ∙ ap (λ l. push_failing p.role l acc ++ vs) none,
          pass integral ((no_violations_iff crypto verifier prices now t p).0 none) judged,
        )
        | inr (x, xs, some) ↦
            let verdict : PartyVerdict = record { role = p.role; violations = found } in
            (
              verdict ∷ vs,
              e
                  ∙ ap (λ l. l ++ vs) (push_failing_lem p.role found acc (λ n. cc (n, some)))
                  ∙ append_assoc acc (verdict ∷ []) vs,
              fail found integral (λ n. cc (n, some))
                  (violations_iff crypto verifier prices now t p) judged,
            )
      ]

  check_parties-fresh :
      (ps : List PartyContext) (acc : List PartyVerdict)
      → All
          (λ p. IsIntegral crypto verifier prices now t p × IsFresh crypto verifier prices now t p)
          ps
      → check_parties crypto verifier prices now t ps acc ≡ ok acc
  unfolding check_parties
  check_parties-fresh [] acc h = refl
  check_parties-fresh (p ∷ ps) acc h =
      rw
        (
          (integrity_iff crypto verifier prices now t p).1 h.0.0,
          (no_violations_iff crypto verifier prices now t p).1 h.0.1,
        )
        (check_parties-fresh ps acc h.1)

  Judged-none :
      (ps : List PartyContext)
      → Judged ps []
      → All
          (λ p. IsIntegral crypto verifier prices now t p × IsFresh crypto verifier prices now t p)
          ps
  Judged-none [] j = tt
  Judged-none (p ∷ ps) (pass i f j) = ((i, f), Judged-none ps j)

  -- A trade clears exactly when for every party the commitment verifies, the disclosed context hashes
  -- to the committed root, the TEE and Drand clocks agree, a price was presented for its market that
  -- is not too old, and the settlement clock lies in the window of its quote.
  pub trade_clears_iff :
      (parties : List PartyContext)
      → (verify_party_contexts crypto verifier parties prices now t ≡ ok clear)
        ↔ All
            (λ p.
              IsIntegral crypto verifier prices now t p × IsFresh crypto verifier prices now t p)
            parties
  unfolding verify_party_contexts
  trade_clears_iff parties = (
    λ h.
        let (out, run, end) =
          >>=-eq-ok (check_parties crypto verifier prices now t parties [])
            (λ failing. ok (outcome_of failing)) h in
        let (vs, e, judged) = check_parties-Judged parties [] out run in
        Judged-none parties
          (subst (Judged parties) (sym e ∙ outcome_clear out (ok-injective end)) judged),
    λ h. rw (check_parties-fresh parties [] h) refl,
  )

  -- A rejection is not empty, and its verdicts are those of the stale parties, in order, each with the
  -- role of the party and exactly the axes on which it is stale; every party was integral.
  pub rejection_blames_stale_parties :
      (parties : List PartyContext) (vs : List PartyVerdict)
      → verify_party_contexts crypto verifier parties prices now t ≡ ok (rejected vs)
      → (vs ≢ []) × Judged parties vs
  unfolding verify_party_contexts
  rejection_blames_stale_parties parties vs h =
      let (out, run, end) =
        >>=-eq-ok (check_parties crypto verifier prices now t parties [])
          (λ failing. ok (outcome_of failing)) h in
      let (found, e, judged) = check_parties-Judged parties [] out run in
      let (nonempty, same) = outcome_rejected out vs (ok-injective end) in
      (nonempty, subst (Judged parties) (sym e ∙ same) judged)
