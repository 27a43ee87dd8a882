-- ===== src/MemoryFreshness/Sources.antt =====
-- examples/memory_freshness.rs: the root of a source set stands for the set.
use mathlib.Core.List.{Permᴰ, Memᴰ}
use mathlib.Core.List.Permᴰ
use proof_of_context_impl.Prelude.{
  ◌<◌, ◌≡◌, ◌≢◌, refl, ap, sym, ◌∙◌, ◌⊎◌, inl, inr, true, List, [], ◌∷◌, map, All, length, subst,
  arith, append_split, both, All-of_members,
}
use proof_of_context_impl.Prelude.Bytes.{Bytes, cmp_refl, eq_of_cmp, lt_of_gt, gt_of_lt, lt_trans}
use proof_of_context_impl.Prelude.Word.{
  u64_mod, le_bytes, le_bytes-injective, word_split, array_split,
}
use proof_of_context_impl.Prelude.Sort.{
  IsOrder, sort_by, sort_by-Perm, sort_by_order, map-sort_by, All-Perm,
}
use proof_of_context_impl.Crypto.{Crypto, IsCrypto, CollisionAmong}
use proof_of_context_impl.Context.Binding.{equal_or_collide}
use proof_of_context_impl.MemoryFreshness.{Pair, hash_content, id_le, pair_bytes, source_set_root}

id_le-IsOrder : IsOrder id_le
unfolding id_le
id_le-IsOrder = record {
  total = λ x y h. ground (arith, lt_of_gt x.0 y.0);
  transitive = λ x y z h k.
      ground (arith, eq_of_cmp x.0 y.0, eq_of_cmp y.0 z.0, cmp_refl x.0, lt_trans x.0 y.0 z.0);
}

-- Sources that tie have one id.
id_of_ties : (x y : Pair) → id_le x y ≡ true → id_le y x ≡ true → x.0 ≡ y.0
unfolding id_le
id_of_ties x y h k = ground (arith, eq_of_cmp x.0 y.0, gt_of_lt x.0 y.0)

-- The sources in the order of their ids.
abbrev sorted : List Pair → List Pair
sorted = sort_by id_le

root-eq :
    (crypto : Crypto) (xs : List Pair)
    → source_set_root crypto xs ≡ crypto.sha256 (pair_bytes (map (hash_content crypto) (sorted xs)))
unfolding source_set_root id_le
root-eq crypto xs =
    ap (λ ys. crypto.sha256 (pair_bytes ys))
      (sym (map-sort_by (hash_content crypto) id_le id_le (λ x y. refl) xs))

-- Sources of different ids.
abbrev pub Distinct : List Pair → Type 0
Distinct xs = (x y : Pair) → Memᴰ x xs → Memᴰ y xs → x.0 ≡ y.0 → x ≡ y

-- The root of sources with different ids does not depend on the order in which they are given.
pub source_set_root_order :
    (crypto : Crypto) (xs ys : List Pair)
    → Distinct xs
    → Permᴰ xs ys
    → source_set_root crypto xs ≡ source_set_root crypto ys
source_set_root_order crypto xs ys distinct p =
    root-eq crypto xs
    ∙ ap (λ zs. crypto.sha256 (pair_bytes (map (hash_content crypto) zs)))
        (sort_by_order id_le id_le-IsOrder p (λ x y m k h i. distinct x y m k (id_of_ties x y h i)))
    ∙ sym (root-eq crypto ys)

pair_bytes-ne-nil : (p : Pair) (ps : List Pair) → pair_bytes (p ∷ ps) ≢ []
unfolding pair_bytes le_bytes
pair_bytes-ne-nil p ps h = cc

-- A length fits in a u64.
abbrev pub HasLength : Pair → Type 0
HasLength p = length p.0 < u64_mod

-- What is hashed for the root of a source set: the contents, and what the loop feeds to the hasher.
pub data Hashes (crypto : Crypto) (xs : List Pair) : Bytes → Type 0 where
  content : {x : Pair} → Memᴰ x xs → Hashes crypto xs x.1
  whole : Hashes crypto xs (pair_bytes (map (hash_content crypto) (sort_by id_le xs)))

-- What is hashed for one of two roots.
abbrev pub HashesOne : Crypto → List Pair → List Pair → Bytes → Type 0
HashesOne crypto xs ys m = Hashes crypto xs m ⊎ Hashes crypto ys m

module _ (crypto : Crypto) (laws : IsCrypto crypto) where
  pair_bytes-injective :
      (Hashed : Bytes → Type 0) (xs ys : List Pair)
      → All HasLength xs
      → All HasLength ys
      → All (λ p. Hashed p.1) xs
      → All (λ p. Hashed p.1) ys
      → pair_bytes (map (hash_content crypto) xs) ≡ pair_bytes (map (hash_content crypto) ys)
      → (xs ≡ ys) ⊎ CollisionAmong crypto Hashed
  unfolding pair_bytes
  pair_bytes-injective Hashed [] [] v w p q h = inl refl
  pair_bytes-injective Hashed [] (y ∷ ys) v w p q h = absurd (pair_bytes-ne-nil _ _ (sym h))
  pair_bytes-injective Hashed (x ∷ xs) [] v w p q h = absurd (pair_bytes-ne-nil _ _ h)
  pair_bytes-injective Hashed (x ∷ xs) (y ∷ ys) v w p q h =
      let (size, h₁) = word_split 8 (length x.0) (length y.0) h in
      let same_size = le_bytes-injective 8 (length x.0) (length y.0) v.0 w.0 size in
      let (id, h₂) = append_split x.0 y.0 same_size h₁ in
      let (hash, rest) =
        array_split (crypto.sha256 x.1) (crypto.sha256 y.1) (laws.digest_size x.1)
          (laws.digest_size y.1) h₂ in
      both (equal_or_collide crypto Hashed p.0 q.0 hash)
        (pair_bytes-injective Hashed xs ys v.1 w.1 p.1 q.1 rest)
        (λ content others. λ i. (id i, content i) ∷ others i)

  -- The contents in order are hashed.
  contents_hashed :
      (xs ys : List Pair)
      → All (λ p. HashesOne crypto xs ys p.1) (sorted xs)
        × All (λ p. HashesOne crypto xs ys p.1) (sorted ys)
  contents_hashed xs ys = (
    All-Perm (λ p. HashesOne crypto xs ys p.1) (Permᴰ.symm (sort_by-Perm id_le xs))
        (All-of_members (λ p. HashesOne crypto xs ys p.1) xs (λ x m. inl (content m))),
    All-Perm (λ p. HashesOne crypto xs ys p.1) (Permᴰ.symm (sort_by-Perm id_le ys))
        (All-of_members (λ p. HashesOne crypto xs ys p.1) ys (λ x m. inr (content m))),
  )

  -- Two source sets with one root are the same sources up to their order, or two of the inputs that
  -- are hashed for them collide.
  pub source_set_root-binds :
      (xs ys : List Pair)
      → All HasLength xs
      → All HasLength ys
      → source_set_root crypto xs ≡ source_set_root crypto ys
      → Permᴰ xs ys ⊎ CollisionAmong crypto (HashesOne crypto xs ys)
  source_set_root-binds xs ys v w h =
      elim (equal_or_collide crypto (HashesOne crypto xs ys) (inl whole) (inr whole)
        (sym (root-eq crypto xs) ∙ h ∙ root-eq crypto ys)) [
          | inr k ↦ inr k
          | inl e ↦
              let (p, q) = contents_hashed xs ys in
              elim (pair_bytes-injective (HashesOne crypto xs ys) (sorted xs) (sorted ys)
                (All-Perm HasLength (Permᴰ.symm (sort_by-Perm id_le xs)) v)
                (All-Perm HasLength (Permᴰ.symm (sort_by-Perm id_le ys)) w) p q e) [
                  | inr k ↦ inr k
                  | inl same ↦ inl (
                      Permᴰ.trans (Permᴰ.symm (sort_by-Perm id_le xs))
                        (subst (λ zs. Permᴰ zs ys) (sym same) (sort_by-Perm id_le ys)))
                ]
        ]
