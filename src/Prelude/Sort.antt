-- ===== src/Prelude/Sort.antt =====
-- The stable `sort_by` of the standard library, for a Boolean `≤` that is total and transitive.
use mathlib.Core.Path.{◌≡◌, refl, ap, ◌∙◌, subst}
use mathlib.Core.Bool.{Bool, true, false}
use mathlib.Core.Logic.{inl, inr}
use mathlib.Core.List.{List, [], ◌∷◌, map, Permᴰ, Memᴰ}
use mathlib.Core.List.Permᴰ
use native.Mathlib.Omega.{arith}
use proof_of_context_impl.Prelude.Tests.{Bool-cases, if◌then◌else◌}
use proof_of_context_impl.Prelude.Lists.{All}

module _ {ℓ} {A : Type ℓ} where
  perm_mem : {a : A} {xs ys : List A} → Permᴰ xs ys → Memᴰ a xs → Memᴰ a ys
  perm_mem Permᴰ.nil m = m
  perm_mem (Permᴰ.cons e p) (Memᴰ.head h) = Memᴰ.head (h ∙ e)
  perm_mem (Permᴰ.cons e p) (Memᴰ.tail m) = Memᴰ.tail (perm_mem p m)
  perm_mem (Permᴰ.swap e f) (Memᴰ.head h) = Memᴰ.tail (Memᴰ.head (h ∙ e))
  perm_mem (Permᴰ.swap e f) (Memᴰ.tail (Memᴰ.head h)) = Memᴰ.head (h ∙ f)
  perm_mem (Permᴰ.swap e f) (Memᴰ.tail (Memᴰ.tail m)) = Memᴰ.tail (Memᴰ.tail m)
  perm_mem (Permᴰ.trans p q) m = perm_mem q (perm_mem p m)

  pub All-Perm {κ} : (P : A → Type κ) {xs ys : List A} → Permᴰ xs ys → All P xs → All P ys
  All-Perm P Permᴰ.nil h = tt
  All-Perm P (Permᴰ.cons e p) h = (subst P e h.0, All-Perm P p h.1)
  All-Perm P (Permᴰ.swap e f) h = (subst P f h.1.0, (subst P e h.0, h.1.1))
  All-Perm P (Permᴰ.trans p q) h = All-Perm P q (All-Perm P p h)

module _ {ℓ} {A : Type ℓ} (le : A → A → Bool) where
  unfoldable pub insert_by : A → List A → List A
  insert_by x [] = x ∷ []
  insert_by x (y ∷ ys) = if le x y then x ∷ y ∷ ys else y ∷ insert_by x ys

  unfoldable pub sort_by : List A → List A
  sort_by [] = []
  sort_by (x ∷ xs) = insert_by x (sort_by xs)

  -- Every element is below all that follow it.
  abbrev pub Ascends : List A → Type ℓ
  Ascends [] = Unit
  Ascends (x ∷ xs) = All (λ y. le x y ≡ true) xs × Ascends xs

  pub record IsOrder : Type ℓ where
    pub total : (x y : A) → le x y ≡ false → le y x ≡ true
    pub transitive : (x y z : A) → le x y ≡ true → le y z ≡ true → le x z ≡ true

  insert_by-Perm : (x : A) (ys : List A) → Permᴰ (insert_by x ys) (x ∷ ys)
  unfolding insert_by
  insert_by-Perm x [] = Permᴰ.refl (x ∷ [])
  insert_by-Perm x (y ∷ ys) = elim (Bool-cases (le x y)) [
    | inl t ↦ rw t (Permᴰ.refl (x ∷ y ∷ ys))
    | inr f ↦ rw f (Permᴰ.trans (Permᴰ.cons refl (insert_by-Perm x ys)) (Permᴰ.swap refl refl))
  ]

  pub sort_by-Perm : (xs : List A) → Permᴰ (sort_by xs) xs
  unfolding sort_by
  sort_by-Perm [] = Permᴰ.nil
  sort_by-Perm (x ∷ xs) =
      Permᴰ.trans (insert_by-Perm x (sort_by xs)) (Permᴰ.cons refl (sort_by-Perm xs))

  module _ (order : IsOrder) where
    insert_by-All :
        (z x : A) (ys : List A)
        → le z x ≡ true
        → All (λ y. le z y ≡ true) ys
        → All (λ y. le z y ≡ true) (insert_by x ys)
    unfolding insert_by
    insert_by-All z x [] h a = (h, tt)
    insert_by-All z x (y ∷ ys) h a = ground (arith, insert_by-All z x ys h a.1)

    All-trans :
        (z x : A) (ys : List A)
        → le z x ≡ true
        → All (λ y. le x y ≡ true) ys
        → All (λ y. le z y ≡ true) ys
    All-trans z x [] h a = tt
    All-trans z x (y ∷ ys) h a = (order.transitive z x y h a.0, All-trans z x ys h a.1)

    insert_by-Ascends : (x : A) (ys : List A) → Ascends ys → Ascends (insert_by x ys)
    unfolding insert_by
    insert_by-Ascends x [] s = (tt, tt)
    insert_by-Ascends x (y ∷ ys) s =
        ground (
          arith,
          All-trans x y ys,
          order.total x y,
          insert_by-All y x ys,
          insert_by-Ascends x ys s.1,
        )

    pub sort_by-Ascends : (xs : List A) → Ascends (sort_by xs)
    unfolding sort_by
    sort_by-Ascends [] = tt
    sort_by-Ascends (x ∷ xs) = insert_by-Ascends x (sort_by xs) (sort_by-Ascends xs)

    -- Two insertions commute, unless they tie.
    insert_by_comm :
        (x y : A) (zs : List A)
        → (le x y ≡ true → le y x ≡ true → x ≡ y)
        → insert_by x (insert_by y zs) ≡ insert_by y (insert_by x zs)
    unfolding insert_by
    insert_by_comm x y [] tie = ground (arith, order.total x y, order.total y x)
    insert_by_comm x y (z ∷ zs) tie = ground (
      arith,
      order.total x y,
      order.total y x,
      order.total x z,
      order.total y z,
      order.transitive x y z,
      order.transitive y x z,
      insert_by_comm x y zs tie,
    )

    -- Elements that tie are equal.
    abbrev pub NoTies : List A → Type ℓ
    NoTies xs = (x y : A) → Memᴰ x xs → Memᴰ y xs → le x y ≡ true → le y x ≡ true → x ≡ y

    pub sort_by_order : {xs ys : List A} → Permᴰ xs ys → NoTies xs → sort_by xs ≡ sort_by ys
    unfolding sort_by
    sort_by_order Permᴰ.nil n = refl
    sort_by_order (Permᴰ.cons {a = a} {l₁ = xs} e p) n =
        rw (← e) (ap (insert_by a) (sort_by_order p (λ x y m k. n x y (Memᴰ.tail m) (Memᴰ.tail k))))
    sort_by_order (Permᴰ.swap {a = a} {b = b} {l = l} e f) n =
        rw (← e, ← f)
          (insert_by_comm a b (sort_by l) (n a b (Memᴰ.head refl) (Memᴰ.tail (Memᴰ.head refl))))
    sort_by_order (Permᴰ.trans p q) n =
        sort_by_order p n
        ∙ sort_by_order q (λ x y m k. n x y (perm_mem (Permᴰ.symm p) m) (perm_mem (Permᴰ.symm p) k))

-- To sort and then project is to project and then sort, where the order is one of the projections.
module _ {ℓ κ} {A : Type ℓ} {B : Type κ} (f : A → B) (le : A → A → Bool) (le' : B → B → Bool)
    (same : (x y : A) → le x y ≡ le' (f x) (f y)) where
  map-insert_by : (x : A) (ys : List A) → map f (insert_by le x ys) ≡ insert_by le' (f x) (map f ys)
  unfolding insert_by
  map-insert_by x [] = refl
  map-insert_by x (y ∷ ys) = ground (arith, same x y, map-insert_by x ys)

  pub map-sort_by : (xs : List A) → map f (sort_by le xs) ≡ sort_by le' (map f xs)
  unfolding sort_by
  map-sort_by [] = refl
  map-sort_by (x ∷ xs) = map-insert_by x (sort_by le xs) ∙ ap (insert_by le' (f x)) (map-sort_by xs)
