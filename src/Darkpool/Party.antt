-- ===== src/Darkpool/Party.antt =====
-- src/darkpool.rs: what one party contributes to a settlement.
use proof_of_context_impl.Prelude.{ℕ, ◌+◌, ◌≤◌, ◌≡◌, ◌↔◌, refl, Bool, true, false, not, [], arith}
use proof_of_context_impl.Prelude.Bytes.{==_iff}
use proof_of_context_impl.Crypto.{Crypto}
use proof_of_context_impl.Error.{PocError, Result, ok, err}
use proof_of_context_impl.Freshness.{FreshnessType, computational, model, input, settlement}
use proof_of_context_impl.Freshness.Listing.{lists, not-true_iff}
use proof_of_context_impl.Anchor.{tee_drand_consistent}
use proof_of_context_impl.Context.{merkle_root}
use proof_of_context_impl.Commitment.{CommitmentVerifier}
use proof_of_context_impl.PriceFreshness.{PriceFreshnessOracle, price_age_secs}
use proof_of_context_impl.Darkpool.{
  DarkPoolThresholds, PartyContext, price_stale, settle_stale, push_if, check_integrity,
  violations_of,
}

abbrev pub PriceWithin : Result PocError ℕ → ℕ → Type 0
PriceWithin (ok age) limit = age ≤ limit
PriceWithin (err e) limit = ⊥

price_stale_iff :
    (r : Result PocError ℕ) (limit : ℕ) → (price_stale r limit ≡ false) ↔ PriceWithin r limit
unfolding price_stale
price_stale_iff (ok age) limit = (λ h. ground arith, λ h. ground arith)
price_stale_iff (err e) limit = (λ h. cc, λ h. absurd h)

-- The settlement clock lies in [quote, quote + max_settle_window_secs].
abbrev pub QuoteInWindow : PartyContext → ℕ → DarkPoolThresholds → Type 0
QuoteInWindow p now t =
    (p.quote_created_at_secs ≤ now) × (now ≤ p.quote_created_at_secs + t.max_settle_window_secs)

settle_stale_iff :
    (p : PartyContext) (now : ℕ) (t : DarkPoolThresholds)
    → (settle_stale p now t ≡ false) ↔ QuoteInWindow p now t
unfolding settle_stale
settle_stale_iff p now t = (λ h. ground arith, λ h. ground arith)

abbrev flag : Bool → Bool → Bool → FreshnessType → Bool
flag a b c computational = a
flag a b c input = b
flag a b c settlement = c
flag a b c model = false

lists-pushes :
    (a b c : Bool) (f : FreshnessType)
    → lists f (push_if c settlement (push_if b input (push_if a computational []))) ≡ flag a b c f
lists-pushes a b c computational = ground arith
lists-pushes a b c model = ground arith
lists-pushes a b c input = ground arith
lists-pushes a b c settlement = ground arith

module _ (crypto : Crypto) (verifier : CommitmentVerifier) (prices : PriceFreshnessOracle) (now : ℕ)
    (t : DarkPoolThresholds) where
  abbrev pub party_consistent : PartyContext → Bool
  party_consistent p = tee_drand_consistent p.commitment.anchor t.anchor_consistency

  -- The artifacts of a party are its own.
  pub record IsIntegral (p : PartyContext) : Type 0 where
    pub verified : verifier.verify p.commitment ≡ ok tt
    pub bound : merkle_root crypto p.root ≡ p.commitment.context_root

  -- The quote of a party was made against fresh context.
  pub record IsFresh (p : PartyContext) : Type 0 where
    pub consistent : party_consistent p ≡ true
    pub price : PriceWithin (price_age_secs prices p.market_id now) t.max_price_age_secs
    pub window : QuoteInWindow p now t

  -- The axes on which a party is stale; the model axis is not judged here.
  abbrev pub PartyViolated : PartyContext → FreshnessType → Type 0
  PartyViolated p computational = party_consistent p ≡ false
  PartyViolated p input = ¬ PriceWithin (price_age_secs prices p.market_id now) t.max_price_age_secs
  PartyViolated p settlement = ¬ QuoteInWindow p now t
  PartyViolated p model = ⊥

  pub integrity_iff :
      (p : PartyContext) → (check_integrity crypto verifier p ≡ ok tt) ↔ IsIntegral p
  unfolding check_integrity
  integrity_iff p =
      let root_iff = ==_iff (merkle_root crypto p.root) p.commitment.context_root in
      (
        λ h. record { verified = ground (arith, root_iff); bound = ground (arith, root_iff) },
        λ i. rw (i.verified) (rw (root_iff.1 i.bound) refl),
      )

  pub no_violations_iff : (p : PartyContext) → (violations_of p prices now t ≡ []) ↔ IsFresh p
  unfolding violations_of
  no_violations_iff p =
      let price_iff =
        price_stale_iff (price_age_secs prices p.market_id now) t.max_price_age_secs in
      let window_iff = settle_stale_iff p now t in
      (
        λ h. record {
          consistent = ground arith;
          price = price_iff.0 (ground arith);
          window = window_iff.0 (ground arith);
        },
        λ f. rw (f.consistent, price_iff.1 f.price, window_iff.1 f.window) refl,
      )

  flag_iff :
      (p : PartyContext) (f : FreshnessType)
      → (flag
            (not (party_consistent p))
            (price_stale (price_age_secs prices p.market_id now) t.max_price_age_secs)
            (settle_stale p now t)
            f
          ≡ true)
        ↔ PartyViolated p f
  flag_iff p computational = (λ h. ground arith, λ h. ground arith)
  flag_iff p model = (λ h. absurd (ground arith), λ h. absurd h)
  flag_iff p input = not-true_iff _ (price_stale_iff _ _)
  flag_iff p settlement = not-true_iff (settle_stale p now t) (settle_stale_iff p now t)

  pub violations_iff :
      (p : PartyContext) (f : FreshnessType)
      → (lists f (violations_of p prices now t) ≡ true) ↔ PartyViolated p f
  unfolding violations_of
  violations_iff p f = rw lists-pushes (flag_iff p f)
