-- ===== src/Backing/Oldest/Union.antt =====
-- src/backing.rs: the union of backing maps, read source by source, and its laws.
use proof_of_context_impl.Prelude.{ℕ, ◌≡◌, refl, sym, ◌∙◌, Option, none, some, [], ◌∷◌, arith}
use proof_of_context_impl.Prelude.Bytes.{Bytes, ==_iff, cmp_refl, eq_of_cmp}
use proof_of_context_impl.SortedMap
use proof_of_context_impl.SortedMap.{SortedMap, IsSorted, Above, Every, values}
use proof_of_context_impl.SortedMap.Laws.{get_Above}
use proof_of_context_impl.SortedMap.Extensional.{SortedMap-ext}
use proof_of_context_impl.Backing.Oldest.{insert, extend, union, IsValid}
use proof_of_context_impl.Backing.Oldest.Reads.{pick, get-insert_oldest, extend-IsValid}

module _ {ℓ} {V : Type ℓ} (time : V → ℕ) where
  pick_assoc : (a b c : Option V) → pick time (pick time a b) c ≡ pick time a (pick time b c)
  pick_assoc none b c = refl
  pick_assoc (some x) none c = refl
  pick_assoc (some x) (some y) none = refl
  pick_assoc (some x) (some y) (some z) = ground arith

  pick_idem : (a : Option V) → pick time a a ≡ a
  pick_idem none = refl
  pick_idem (some x) = ground arith

  pub pick-none : (a : Option V) → pick time a none ≡ a
  pick-none none = refl
  pick-none (some x) = refl

  -- Values of one time are one value.
  abbrev pub Agree : Option V → Option V → Type ℓ
  Agree (some x) (some y) = time x ≡ time y → x ≡ y
  Agree none b = Unit
  Agree (some x) none = Unit

  pick_comm : (a b : Option V) → Agree a b → pick time a b ≡ pick time b a
  pick_comm none none h = refl
  pick_comm none (some y) h = refl
  pick_comm (some x) none h = refl
  pick_comm (some x) (some y) h = ground arith

module _ {ℓ} {V : Type ℓ} (key : V → Bytes) (time : V → ℕ) where
  get-extend :
      (k : Bytes) (a b : SortedMap V)
      → IsSorted b
      → Every (λ k v. k ≡ key v) b
      → SortedMap.get k (extend key time a (values b))
        ≡ pick time (SortedMap.get k a) (SortedMap.get k b)
  unfolding extend SortedMap.get
  get-extend k a [] s h = sym (pick-none time (SortedMap.get k a))
  get-extend k a ((j, v) ∷ b) s h =
      get-extend k (insert key time v a) b s.1 h.1
      ∙ ground (
        arith,
        get-insert_oldest key time k v a,
        h.0,
        ==_iff k (key v),
        ==_iff k j,
        eq_of_cmp k j,
        get_Above j b s.0,
        cmp_refl k,
        pick-none time (SortedMap.get k a),
      )

  -- Of the two values that the operands have for a source, the union has the older one.
  pub get-union :
      (k : Bytes) (a b : SortedMap V)
      → IsValid key time b
      → SortedMap.get k (union key time a b) ≡ pick time (SortedMap.get k a) (SortedMap.get k b)
  unfolding union
  get-union k a b h = get-extend k a b h.sorted h.keyed

  pub union-IsValid :
      (a b : SortedMap V) → IsValid key time a → IsValid key time (union key time a b)
  unfolding union
  union-IsValid a b h = extend-IsValid key time (values b) h

  pub merge_assoc :
      (a b c : SortedMap V)
      → IsValid key time a
      → IsValid key time b
      → IsValid key time c
      → union key time (union key time a b) c ≡ union key time a (union key time b c)
  merge_assoc a b c va vb vc =
      let vab = union-IsValid a b va in
      let vbc = union-IsValid b c vb in
      SortedMap-ext (union key time (union key time a b) c) (union key time a (union key time b c))
        (union-IsValid (union key time a b) c vab).sorted
        (union-IsValid a (union key time b c) va).sorted
        λ k. cc (
          get-union k (union key time a b) c vc,
          get-union k a b vb,
          get-union k a (union key time b c) vbc,
          get-union k b c vc,
          pick_assoc time (SortedMap.get k a) (SortedMap.get k b) (SortedMap.get k c),
        )

  pub merge_idem : (a : SortedMap V) → IsValid key time a → union key time a a ≡ a
  merge_idem a va =
      SortedMap-ext (union key time a a) a (union-IsValid a a va).sorted va.sorted
        λ k. get-union k a a va ∙ pick_idem time (SortedMap.get k a)

  pub merge_comm :
      (a b : SortedMap V)
      → IsValid key time a
      → IsValid key time b
      → ((k : Bytes) → Agree time (SortedMap.get k a) (SortedMap.get k b))
      → union key time a b ≡ union key time b a
  merge_comm a b va vb agree =
      SortedMap-ext (union key time a b) (union key time b a) (union-IsValid a b va).sorted
        (union-IsValid b a vb).sorted
        λ k. cc (
          get-union k a b vb,
          get-union k b a va,
          pick_comm time (SortedMap.get k a) (SortedMap.get k b) (agree k),
        )
