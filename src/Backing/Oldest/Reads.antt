-- ===== src/Backing/Oldest/Reads.antt =====
-- src/backing.rs: what a backing map reads after `insert`, and that it stays well formed.
use proof_of_context_impl.Prelude.{
  ℕ, ◌≡◌, refl, Option, none, some, List, [], ◌∷◌, arith, leb, if◌then◌else◌, Option-cases, inl,
  inr, Bool-cases,
}
use proof_of_context_impl.Prelude.Bytes.{Bytes, ◌==◌, ==_iff, cmp_refl}
use proof_of_context_impl.SortedMap
use proof_of_context_impl.SortedMap.{SortedMap, IsSorted, Every, values}
use proof_of_context_impl.SortedMap.Laws.{get-insert, insert-IsSorted, insert-Every}
use proof_of_context_impl.Backing.Oldest.{insert, extend, IsValid}

module _ {ℓ} {V : Type ℓ} (time : V → ℕ) where
  -- The older of two values, the first one if they are of one age.
  abbrev pub older : V → V → V
  older x y = if leb (time x) (time y) then x else y

  abbrev pub pick : Option V → Option V → Option V
  pick none b = b
  pick (some x) none = some x
  pick (some x) (some y) = some (older x y)

module _ {ℓ} {V : Type ℓ} (key : V → Bytes) (time : V → ℕ) where
  pub get-insert_oldest :
      (k : Bytes) (v : V) (m : SortedMap V)
      → SortedMap.get k (insert key time v m)
        ≡ (if k == key v then pick time (SortedMap.get k m) (some v) else SortedMap.get k m)
  unfolding insert
  get-insert_oldest k v m = ground (arith, get-insert (key v) k v m, ==_iff k (key v), cmp_refl k)

  pub insert-IsValid :
      (v : V) {m : SortedMap V} → IsValid key time m → IsValid key time (insert key time v m)
  unfolding insert
  insert-IsValid v {m} h =
      let written : IsValid key time (SortedMap.insert (key v) v m) = record {
        sorted = insert-IsSorted (key v) v m h.sorted;
        keyed = insert-Every (λ k v. k ≡ key v) (key v) v m refl h.keyed;
      } in
      elim (Option-cases (SortedMap.get (key v) m)) [
        | inl e ↦ rw (e, insert) written
        | inr (w, e) ↦ elim (Bool-cases (leb (time w) (time v))) [
          | inl le ↦ rw (e, insert) (rw (le, insert) h)
          | inr gt ↦ rw (e, insert) (rw (gt, insert) written)
        ]
      ]

  pub extend-IsValid :
      (vs : List V) {m : SortedMap V} → IsValid key time m → IsValid key time (extend key time m vs)
  unfolding extend
  extend-IsValid [] h = h
  extend-IsValid (v ∷ vs) h = extend-IsValid vs (insert-IsValid v h)
