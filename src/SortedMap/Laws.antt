-- ===== src/SortedMap/Laws.antt =====
-- `get` after `insert`, and what `insert` keeps.
use Prim.Native.Nat.Ordering.{lt}
use proof_of_context_impl.Prelude.{◌≡◌, refl, All, none, some, [], ◌∷◌, arith, if◌then◌else◌}
use proof_of_context_impl.Prelude.Bytes.{Bytes, cmp, cmp_refl, eq_of_cmp, lt_of_gt, lt_trans, ◌==◌}
use proof_of_context_impl.SortedMap.{SortedMap, get, insert, values, Above, IsSorted, Every}

module _ {ℓ} {V : Type ℓ} where
  pub get-insert :
      (k j : Bytes) (v : V) (m : SortedMap V)
      → get j (insert k v m) ≡ (if j == k then some v else get j m)
  unfolding get insert
  get-insert k j v [] = ground arith
  get-insert k j v ((i, w) ∷ m) = ground (
    arith,
    eq_of_cmp j k,
    eq_of_cmp k i,
    eq_of_cmp j i,
    cmp_refl i,
    cmp_refl k,
    get-insert k j v m,
  )

  pub get-insert_self : (k : Bytes) (v : V) (m : SortedMap V) → get k (insert k v m) ≡ some v
  get-insert_self k v m = ground (arith, get-insert k k v m, cmp_refl k)

  Above-insert :
      (b k : Bytes) (v : V) (m : SortedMap V) → cmp b k ≡ lt → Above b m → Above b (insert k v m)
  unfolding insert
  Above-insert b k v [] h a = (h, tt)
  Above-insert b k v ((j, w) ∷ m) h a = ground (arith, Above-insert b k v m h a.1)

  pub Above-trans : (a b : Bytes) (m : SortedMap V) → cmp a b ≡ lt → Above b m → Above a m
  Above-trans a b [] h k = tt
  Above-trans a b ((j, w) ∷ m) h k = (lt_trans a b j h k.0, Above-trans a b m h k.1)

  pub insert-IsSorted : (k : Bytes) (v : V) (m : SortedMap V) → IsSorted m → IsSorted (insert k v m)
  unfolding insert
  insert-IsSorted k v [] s = (tt, tt)
  insert-IsSorted k v ((j, w) ∷ m) s = ground (
    arith,
    eq_of_cmp k j,
    Above-trans k j m,
    lt_of_gt k j,
    Above-insert j k v m,
    insert-IsSorted k v m,
  )

  pub insert-Every {κ} :
      (P : Bytes → V → Type κ) (k : Bytes) (v : V) (m : SortedMap V)
      → P k v
      → Every P m
      → Every P (insert k v m)
  unfolding insert
  insert-Every P k v [] p h = (p, tt)
  insert-Every P k v ((j, w) ∷ m) p h = ground (arith, insert-Every P k v m p h.1)

  pub get_Above : (k : Bytes) (m : SortedMap V) → Above k m → get k m ≡ none
  unfolding get
  get_Above k [] h = refl
  get_Above k ((j, w) ∷ m) h = ground (arith, get_Above k m h.1)

  pub get-Every {κ} :
      (P : Bytes → V → Type κ) (k : Bytes) (m : SortedMap V) {v : V}
      → Every P m
      → get k m ≡ some v
      → P k v
  unfolding get
  get-Every P k [] h e = cc
  get-Every P k ((j, w) ∷ m) {v} h e = grind (arith, eq_of_cmp k j, get-Every P k m {v = v} h.1)

  -- A property of all values, and of all that can be read.
  pub get_of_values {κ} :
      (P : V → Type κ) (k : Bytes) (m : SortedMap V) {v : V}
      → All P (values m)
      → get k m ≡ some v
      → P v
  unfolding get
  get_of_values P k [] h e = absurd (cc e)
  get_of_values P k ((j, w) ∷ m) {v} h e = grind (arith, get_of_values P k m {v = v} h.1)

  pub values_of_get {κ} :
      (P : V → Type κ) (m : SortedMap V)
      → IsSorted m
      → ((k : Bytes) (v : V) → get k m ≡ some v → P v)
      → All P (values m)
  unfolding get
  values_of_get P [] s h = tt
  values_of_get P ((j, w) ∷ m) s h = (
    h j w (ground (arith, cmp_refl j)),
    values_of_get P m s.1 (λ k v e. h k v (ground (arith, eq_of_cmp k j, get_Above j m s.0))),
  )
