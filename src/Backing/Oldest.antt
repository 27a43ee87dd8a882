-- ===== src/Backing/Oldest.antt =====
-- src/backing.rs: the merge rule that BackingSet and SignedBackingSet spell out alike. A map from
-- source ids, in which the value with the older time wins.
pub mod Reads
pub mod Union
use proof_of_context_impl.Prelude.{ℕ, ◌≡◌, none, some, List, [], ◌∷◌, leb, if◌then◌else◌}
use proof_of_context_impl.Prelude.Bytes.{Bytes}
use proof_of_context_impl.SortedMap
use proof_of_context_impl.SortedMap.{SortedMap, IsSorted, Every, values}

module _ {ℓ} {V : Type ℓ} (key : V → Bytes) (time : V → ℕ) where
  -- BackingSet::insert, SignedBackingSet::insert
  unfoldable pub insert : V → SortedMap V → SortedMap V
  insert v m = elim (SortedMap.get (key v) m) [
    | none ↦ SortedMap.insert (key v) v m
    | some existing ↦ if leb (time existing) (time v) then m else SortedMap.insert (key v) v m
  ]

  -- `for v in vs { out.insert(v) }`
  unfoldable pub extend : SortedMap V → List V → SortedMap V
  extend m [] = m
  extend m (v ∷ vs) = extend (insert v m) vs

  -- BackingSet::union, SignedBackingSet::union
  unfoldable pub union : SortedMap V → SortedMap V → SortedMap V
  union a b = extend a (values b)

  -- Sorted, and every value under its own key.
  pub record IsValid (m : SortedMap V) : Type ℓ where
    pub sorted : IsSorted m
    pub keyed : Every (λ k v. k ≡ key v) m
