-- ===== src/Darkpool/Abort.antt =====
-- src/darkpool.rs: integrity failures abort the settlement, with the role of the party at fault.
use proof_of_context_impl.Prelude.{◌≡◌, ◌≢◌, ◌↔◌, ◌⊎◌, inl, inr, refl, ℕ, List, [], ◌∷◌, arith}
use proof_of_context_impl.Prelude.Bytes.{==_iff}
use proof_of_context_impl.Crypto.{Crypto}
use proof_of_context_impl.Error.{root_mismatch, ok, err, returned, failed, outcome}
use proof_of_context_impl.Context.{merkle_root}
use proof_of_context_impl.Commitment.{CommitmentVerifier}
use proof_of_context_impl.PriceFreshness.{PriceFreshnessOracle}
use proof_of_context_impl.Darkpool.{
  DarkPoolThresholds, PartyContext, PartyVerdict, PartyIntegrityError, check_integrity,
  violations_of, push_failing, check_parties, verify_party_contexts,
}
use proof_of_context_impl.Darkpool.Party.{IsIntegral, integrity_iff}

module _ (crypto : Crypto) (verifier : CommitmentVerifier) (prices : PriceFreshnessOracle) (now : ℕ)
    (t : DarkPoolThresholds) where
  -- The error is this party's: its role, with the verifier's error or a disclosure that does not bind.
  abbrev pub Culprit : PartyContext → PartyIntegrityError → Type 0
  Culprit p e =
      (e.role ≡ p.role)
      × ((verifier.verify p.commitment ≡ err e.source)
          ⊎ ((verifier.verify p.commitment ≡ ok tt)
              × (merkle_root crypto p.root ≢ p.commitment.context_root)
              × (e.source ≡ root_mismatch)))

  -- The first party that is not integral is the culprit.
  pub data Aborts (e : PartyIntegrityError) : List PartyContext → Type 0 where
    here : {p : PartyContext} {ps : List PartyContext} → Culprit p e → Aborts e (p ∷ ps)
    later :
        {p : PartyContext} {ps : List PartyContext}
        → IsIntegral crypto verifier prices now t p
        → Aborts e ps
        → Aborts e (p ∷ ps)

  Culprit-iff :
      (p : PartyContext) (e : PartyIntegrityError)
      → (check_integrity crypto verifier p ≡ err e) ↔ Culprit p e
  unfolding check_integrity
  Culprit-iff p e =
      let root_iff = ==_iff (merkle_root crypto p.root) p.commitment.context_root in
      (
        λ h. elim (outcome (verifier.verify p.commitment)) [
          | returned u v ↦
              let unbound : merkle_root crypto p.root ≢ p.commitment.context_root =
                λ b. ground (arith, root_iff, b) in
              (ground arith, inr (ground arith, unbound, ground arith))
          | failed s v ↦ (ground arith, inl (ground arith))
        ],
        λ c. elim (c.1) [ inl v ↦ rw v (ground arith) | inr r ↦ ground (arith, root_iff) ],
      )

  abort_found :
      (ps : List PartyContext) (acc : List PartyVerdict) (e : PartyIntegrityError)
      → check_parties crypto verifier prices now t ps acc ≡ err e
      → Aborts e ps
  unfolding check_parties
  abort_found [] acc e h = cc
  abort_found (p ∷ ps) acc e h = elim (outcome (check_integrity crypto verifier p)) [
    | returned u v ↦
        later ((integrity_iff crypto verifier prices now t p).0 v)
          (abort_found ps (push_failing p.role (violations_of p prices now t) acc) e (ground arith))
    | failed s v ↦ here ((Culprit-iff p e).0 (ground arith))
  ]

  found-Aborts :
      (ps : List PartyContext) (acc : List PartyVerdict) (e : PartyIntegrityError)
      → Aborts e ps
      → check_parties crypto verifier prices now t ps acc ≡ err e
  unfolding check_parties
  found-Aborts [] acc e a = elim a [ ]
  found-Aborts (p ∷ ps) acc e (here c) = rw ((Culprit-iff p e).1 c) refl
  found-Aborts (p ∷ ps) acc e (later i a) =
      rw ((integrity_iff crypto verifier prices now t p).1 i)
        (found-Aborts ps (push_failing p.role (violations_of p prices now t) acc) e a)

  -- The settlement ends with an error exactly when some party is the culprit for it and every party
  -- before that one is integral: the error names the first party at fault and the reason, and staleness
  -- of other parties does not hide it.
  pub trade-Aborts_iff :
      (parties : List PartyContext) (e : PartyIntegrityError)
      → (verify_party_contexts crypto verifier parties prices now t ≡ err e) ↔ Aborts e parties
  unfolding verify_party_contexts
  trade-Aborts_iff parties e =
      (λ h. abort_found parties [] e (ground arith), λ a. rw (found-Aborts parties [] e a) refl)
