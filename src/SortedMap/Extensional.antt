-- ===== src/SortedMap/Extensional.antt =====
-- Two maps that read alike are equal.
use Prim.Native.Nat.Ordering.{lt}
use proof_of_context_impl.Prelude.{◌≡◌, refl, none, some, [], ◌∷◌, arith, inl, inr, Ordering-cases}
use proof_of_context_impl.Prelude.Bytes.{Bytes, cmp, cmp_refl, eq_of_cmp, lt_of_gt}
use proof_of_context_impl.SortedMap.{SortedMap, get, Above, IsSorted}
use proof_of_context_impl.SortedMap.Laws.{Above-trans, get_Above}

module _ {ℓ} {V : Type ℓ} where
  get-nil : (k : Bytes) → get {V = V} k [] ≡ none
  unfolding get
  get-nil k = refl

  get-cons_self : (k : Bytes) (v : V) (m : SortedMap V) → get k ((k, v) ∷ m) ≡ some v
  unfolding get
  get-cons_self k v m = ground (arith, cmp_refl k)

  -- A key below all keys of a map is not in it.
  get_below :
      (k j : Bytes) (v : V) (m : SortedMap V) → cmp k j ≡ lt → Above j m → get k ((j, v) ∷ m) ≡ none
  get_below k j v m h a = get_Above k ((j, v) ∷ m) (h, Above-trans k j m h a)

  -- The tails of two maps with one first key read alike.
  get_tails :
      (k j : Bytes) (v w : V) (m n : SortedMap V)
      → k ≡ j
      → Above k m
      → Above j n
      → ((i : Bytes) → get i ((k, v) ∷ m) ≡ get i ((j, w) ∷ n))
      → (i : Bytes) → get i m ≡ get i n
  unfolding get
  get_tails k j v w m n e a b h i =
      ground
        (arith, h i, eq_of_cmp i k, eq_of_cmp i j, cmp_refl k, get_Above k m a, get_Above j n b)

  pub SortedMap-ext :
      (m n : SortedMap V) → IsSorted m → IsSorted n → ((j : Bytes) → get j m ≡ get j n) → m ≡ n
  SortedMap-ext [] [] s t h = refl
  SortedMap-ext [] ((j, w) ∷ n) s t h = cc (h j, get-cons_self j w n, get-nil j)
  SortedMap-ext ((k, v) ∷ m) [] s t h = cc (h k, get-cons_self k v m, get-nil k)
  SortedMap-ext ((k, v) ∷ m) ((j, w) ∷ n) s t h = elim (Ordering-cases (cmp k j)) [
    | inl p ↦ cc (h k, get-cons_self k v m, get_below k j w n p t.0)
    | inr (inl q) ↦
        let e = eq_of_cmp k j q in
        let rest = SortedMap-ext m n s.1 t.1 (get_tails k j v w m n e s.0 t.0 h) in
        cc (h k, get-cons_self k v m, get-cons_self j w n, e, rest)
    | inr (inr r) ↦ cc (h j, get-cons_self j w n, get_below j k v m (lt_of_gt k j r) s.0)
  ]
