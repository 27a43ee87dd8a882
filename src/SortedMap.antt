-- ===== src/SortedMap.antt =====
-- `BTreeMap<K, V>` and `HashMap<K, V>` of the standard library for keys that are byte strings:
-- `get`, `insert`, `len`, and the values in key order. A list in strictly ascending key order.
pub mod Laws
pub mod Extensional
use Prim.Native.Nat.Ordering.{lt, eq, gt}
use proof_of_context_impl.Prelude.{ℕ, ◌≡◌, Option, none, some, List, [], ◌∷◌, length, All}
use proof_of_context_impl.Prelude.Bytes.{Bytes, cmp}

abbrev pub SortedMap {ℓ} : Type ℓ → Type ℓ
SortedMap V = List (Bytes × V)

module _ {ℓ} {V : Type ℓ} where
  abbrev pub empty : SortedMap V
  empty = []

  -- m.get(k)
  unfoldable pub get : Bytes → SortedMap V → Option V
  get k [] = none
  get k ((j, v) ∷ m) = elim (cmp k j) [ eq ↦ some v | _ ↦ get k m ]

  -- m.insert(k, v)
  unfoldable pub insert : Bytes → V → SortedMap V → SortedMap V
  insert k v [] = (k, v) ∷ []
  insert k v ((j, w) ∷ m) = elim (cmp k j) [
    | lt ↦ (k, v) ∷ (j, w) ∷ m
    | eq ↦ (k, v) ∷ m
    | gt ↦ (j, w) ∷ insert k v m
  ]

  -- m.values()
  abbrev pub values : SortedMap V → List V
  values [] = []
  values ((k, v) ∷ m) = v ∷ values m

  -- Every key of the map is above `k`.
  abbrev pub Above : Bytes → SortedMap V → Type 0
  Above k [] = Unit
  Above k ((j, v) ∷ m) = (cmp k j ≡ lt) × Above k m

  abbrev pub IsSorted : SortedMap V → Type 0
  IsSorted [] = Unit
  IsSorted ((k, v) ∷ m) = Above k m × IsSorted m

  -- A property of every entry.
  abbrev pub Every {κ} : (Bytes → V → Type κ) → SortedMap V → Type κ
  Every P [] = Unit
  Every P ((k, v) ∷ m) = P k v × Every P m
