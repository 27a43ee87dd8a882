-- ===== src/Darkpool.antt =====
-- src/darkpool.rs: the multi-party gate, in unix seconds.
pub mod Party
pub mod Decision
pub mod Abort
pub mod Age
mod Tests
use proof_of_context_impl.Prelude.{
  ℕ, ◌-◌, Bool, true, false, ◌||◌, not, List, [], ◌∷◌, ◌++◌, ltb, if◌then◌else◌,
}
use proof_of_context_impl.Prelude.Bytes.{Bytes, ◌==◌}
use proof_of_context_impl.Crypto.{Crypto}
use proof_of_context_impl.Error.{PocError, root_mismatch, Result, ok, err, map_err, ◌>>=◌, ◌>>◌}
use proof_of_context_impl.Freshness.{
  FreshnessType, computational, model, input, settlement, FreshnessThresholds, default_base_mainnet,
}
use proof_of_context_impl.Anchor.{tee_drand_consistent}
use proof_of_context_impl.Context.{ExecutionContextRoot, merkle_root}
use proof_of_context_impl.Commitment.{FreshnessCommitment, CommitmentVerifier}
use proof_of_context_impl.PriceFreshness.{PriceFreshnessOracle, price_age_secs}

pub record DarkPoolThresholds : Type 0 where
  pub max_price_age_secs : ℕ
  pub max_settle_window_secs : ℕ
  pub anchor_consistency : FreshnessThresholds

abbrev pub default : DarkPoolThresholds
default = record {
  max_price_age_secs = 30;
  max_settle_window_secs = 600;
  anchor_consistency = default_base_mainnet;
}

pub data PartyRole : Type 0 where
  intent response : PartyRole
  other : ℕ → PartyRole

pub record PartyContext : Type 0 where
  pub role : PartyRole
  pub commitment : FreshnessCommitment
  pub root : ExecutionContextRoot
  pub market_id : Bytes
  pub quote_created_at_secs : ℕ

pub record PartyVerdict : Type 0 where
  pub role : PartyRole
  pub violations : List FreshnessType

pub data DarkPoolSettlement : Type 0 where
  clear : DarkPoolSettlement
  rejected : List PartyVerdict → DarkPoolSettlement

pub record PartyIntegrityError : Type 0 where
  pub role : PartyRole
  pub source : PocError

-- `violations.push(t)` under a test
abbrev pub push_if : Bool → FreshnessType → List FreshnessType → List FreshnessType
push_if violated t violations = if violated then violations ++ t ∷ [] else violations

-- `match age { Ok(age) => age > limit, Err(_) => true }`
unfoldable pub price_stale : Result PocError ℕ → ℕ → Bool
price_stale (ok age) limit = ltb limit age
price_stale (err _) limit = true

unfoldable pub settle_stale : PartyContext → ℕ → DarkPoolThresholds → Bool
settle_stale party now_secs t =
    ltb now_secs party.quote_created_at_secs
    || ltb t.max_settle_window_secs (now_secs - party.quote_created_at_secs)

-- Step 1 of a round: signature and attestation, then the binding of the disclosed context.
unfoldable pub check_integrity :
    Crypto → CommitmentVerifier → PartyContext → Result PartyIntegrityError (Unit {0})
check_integrity crypto verifier party = do
  map_err (λ source. record { role = party.role; source = source })
      (verifier.verify party.commitment)
  if not (merkle_root crypto party.root == party.commitment.context_root)
      then err (record { role = party.role; source = root_mismatch })
      else ok tt

-- The pushes of steps 2 to 4, in order.
unfoldable pub violations_of :
    PartyContext → PriceFreshnessOracle → ℕ → DarkPoolThresholds → List FreshnessType
violations_of party price_oracle now_secs t =
    let inconsistent = not (tee_drand_consistent party.commitment.anchor t.anchor_consistency) in
    let age = price_age_secs price_oracle party.market_id now_secs in
    push_if (settle_stale party now_secs t) settlement
      (push_if (price_stale age t.max_price_age_secs) input (push_if inconsistent computational []))

-- `if !violations.is_empty() { failing.push(..) }`
abbrev pub push_failing : PartyRole → List FreshnessType → List PartyVerdict → List PartyVerdict
push_failing role [] failing = failing
push_failing role (v ∷ vs) failing = failing ++ record { role = role; violations = v ∷ vs } ∷ []

-- The loop over the parties.
unfoldable pub check_parties :
    Crypto
    → CommitmentVerifier
    → PriceFreshnessOracle
    → ℕ
    → DarkPoolThresholds
    → List PartyContext
    → List PartyVerdict
    → Result PartyIntegrityError (List PartyVerdict)
check_parties crypto verifier price_oracle now_secs t [] failing = ok failing
check_parties crypto verifier price_oracle now_secs t (party ∷ rest) failing =
    check_integrity crypto verifier party
    >> check_parties crypto verifier price_oracle now_secs t rest
        (push_failing party.role (violations_of party price_oracle now_secs t) failing)

abbrev pub outcome_of : List PartyVerdict → DarkPoolSettlement
outcome_of [] = clear
outcome_of (v ∷ vs) = rejected (v ∷ vs)

unfoldable pub verify_party_contexts :
    Crypto
    → CommitmentVerifier
    → List PartyContext
    → PriceFreshnessOracle
    → ℕ
    → DarkPoolThresholds
    → Result PartyIntegrityError DarkPoolSettlement
verify_party_contexts crypto verifier parties price_oracle now_secs t = do
  failing ← check_parties crypto verifier price_oracle now_secs t parties []
  ok (outcome_of failing)
