-- ===== src/Backing/Gate.antt =====
-- src/backing.rs: the age policy, and the gate that lists the stale entries.
pub mod Verdict
pub mod Derived
use proof_of_context_impl.Prelude.{ℕ, Option, none, some, List, [], ◌∷◌, leb, if◌then◌else◌}
use proof_of_context_impl.Prelude.Bytes.{Bytes}
use proof_of_context_impl.SortedMap
use proof_of_context_impl.SortedMap.{SortedMap}
use proof_of_context_impl.Backing.Set.{BackingEntry, BackingSet, age_secs}

pub record AgePolicy : Type 0 where
  pub max_age_secs_by_class : SortedMap ℕ
  pub default_max_age_secs : Option ℕ

pub record StaleEntry : Type 0 where
  pub entry : BackingEntry
  pub age_secs : ℕ
  pub limit_secs : Option ℕ

pub data BackingVerdict : Type 0 where
  fresh : BackingVerdict
  stale : List StaleEntry → BackingVerdict

-- `policy.max_age_secs_by_class.get(&class).copied().or(policy.default_max_age_secs)`
unfoldable pub limit_for : AgePolicy → Bytes → Option ℕ
limit_for policy class = elim (SortedMap.get class policy.max_age_secs_by_class) [
  | some limit ↦ some limit
  | none ↦ policy.default_max_age_secs
]

-- What one round of the loop pushes.
unfoldable pub check : AgePolicy → ℕ → BackingEntry → Option StaleEntry
check policy now_secs e =
    let age = age_secs e now_secs in
    elim (limit_for policy e.class) [
      | some limit ↦
          if leb age limit
          then none
          else some (record { entry = e; age_secs = age; limit_secs = some limit })
      | none ↦ some (record { entry = e; age_secs = age; limit_secs = none })
    ]

-- The loop over the entries, in source order.
unfoldable pub stale_entries : AgePolicy → ℕ → List BackingEntry → List StaleEntry
stale_entries policy now_secs [] = []
stale_entries policy now_secs (e ∷ es) =
    let rest = stale_entries policy now_secs es in
    elim (check policy now_secs e) [ none ↦ rest | some s ↦ s ∷ rest ]

unfoldable pub gate : BackingSet → AgePolicy → ℕ → BackingVerdict
gate s policy now_secs = elim (stale_entries policy now_secs (SortedMap.values s.entries)) [
  | [] ↦ fresh
  | x ∷ xs ↦ stale (x ∷ xs)
]
