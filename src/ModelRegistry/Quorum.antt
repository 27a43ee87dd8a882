-- ===== src/ModelRegistry/Quorum.antt =====
-- src/model_registry.rs: a lineage is adopted on a quorum of distinct registered publishers.
use proof_of_context_impl.Prelude.{
  ◌≤◌, ◌<◌, ◌≡◌, ◌↔◌, ◌⊎◌, inl, inr, true, some, List, [], ◌∷◌, arith, length,
}
use proof_of_context_impl.Prelude.Bytes.{Bytes, ==_iff}
use proof_of_context_impl.Crypto.{Crypto}
use proof_of_context_impl.Error.{oracle_unavailable, ok, err}
use proof_of_context_impl.SortedMap
use proof_of_context_impl.SortedMap.{SortedMap, IsSorted}
use proof_of_context_impl.SortedMap.Laws.{get-insert, insert-IsSorted}
use proof_of_context_impl.Canonical.{Json}
use proof_of_context_impl.ModelRegistry.{
  ModelLineage, QuorumSignature, QuorumModelOracle, contains, add_valid, collect_valid,
  signing_message, present_lineage,
}

module _ (crypto : Crypto) (publishers : SortedMap (Unit {0})) (message : Bytes) where
  -- A signature that counts: by a registered publisher, whose key parses, over this message.
  abbrev pub Counts : QuorumSignature → Type 0
  Counts s =
      (contains publishers s.public_key ≡ true)
      × (crypto.key_ok s.public_key ≡ true)
      × (crypto.verify_ok s.public_key message s.signature ≡ true)

  -- The publisher has a signature that counts.
  pub data Signed (key : Bytes) : List QuorumSignature → Type 0 where
    here :
        {s : QuorumSignature} {ss : List QuorumSignature}
        → s.public_key ≡ key
        → Counts s
        → Signed key (s ∷ ss)
    there : {s : QuorumSignature} {ss : List QuorumSignature} → Signed key ss → Signed key (s ∷ ss)

  add_valid-IsSorted :
      (s : QuorumSignature) (m : SortedMap (Unit {0}))
      → IsSorted m
      → IsSorted (add_valid crypto publishers message s m)
  unfolding add_valid
  add_valid-IsSorted s m h = ground (arith, insert-IsSorted s.public_key tt m h)

  contains-add_valid :
      (s : QuorumSignature) (m : SortedMap (Unit {0})) (key : Bytes)
      → contains (add_valid crypto publishers message s m) key ≡ true
        ↔ (contains m key ≡ true) ⊎ ((s.public_key ≡ key) × Counts s)
  unfolding add_valid
  contains-add_valid s m key = (
    λ h. grind (arith, get-insert s.public_key key tt m, ==_iff key s.public_key),
    λ h. grind (arith, get-insert s.public_key key tt m, ==_iff key s.public_key),
  )

  collect_valid-IsSorted :
      (ss : List QuorumSignature) (m : SortedMap (Unit {0}))
      → IsSorted m
      → IsSorted (collect_valid crypto publishers message ss m)
  unfolding collect_valid
  collect_valid-IsSorted [] m h = h
  collect_valid-IsSorted (s ∷ ss) m h =
      collect_valid-IsSorted ss (add_valid crypto publishers message s m) (add_valid-IsSorted s m h)

  -- A key is collected exactly if it was collected before or has a signature that counts.
  collected-Signed :
      (ss : List QuorumSignature) (m : SortedMap (Unit {0})) (key : Bytes)
      → contains (collect_valid crypto publishers message ss m) key ≡ true
      → (contains m key ≡ true) ⊎ Signed key ss
  unfolding collect_valid
  collected-Signed [] m key h = inl h
  collected-Signed (s ∷ ss) m key h =
      elim (collected-Signed ss (add_valid crypto publishers message s m) key h) [
        | inl c ↦ elim ((contains-add_valid s m key).0 c) [
          | inl d ↦ inl d
          | inr d ↦ inr (here d.0 d.1)
        ]
        | inr t ↦ inr (there t)
      ]

  Signed-collected :
      (ss : List QuorumSignature) (m : SortedMap (Unit {0})) (key : Bytes)
      → (contains m key ≡ true) ⊎ Signed key ss
      → contains (collect_valid crypto publishers message ss m) key ≡ true
  unfolding collect_valid
  Signed-collected [] m key (inl h) = h
  Signed-collected [] m key (inr s) = elim s [ ]
  Signed-collected (s ∷ ss) m key (inl h) =
      Signed-collected ss _ key (inl ((contains-add_valid s m key).1 (inl h)))
  Signed-collected (s ∷ ss) m key (inr (here e c)) =
      Signed-collected ss _ key (inl ((contains-add_valid s m key).1 (inr (e, c))))
  Signed-collected (s ∷ ss) m key (inr (there t)) = Signed-collected ss _ key (inr t)

nothing_contained : (key : Bytes) → contains SortedMap.empty key ≡ true → ⊥
unfolding SortedMap.get
nothing_contained key h = cc h

-- A lineage is adopted exactly when the threshold is positive and some set of distinct keys, at
-- least as many as the threshold, consists of the publishers with a signature that counts: the key
-- is registered and parses, and the signature verifies over this lineage's own message. Then only
-- the adopted lineage changes. In every other case the presentation fails with OracleUnavailable.
pub present_lineage_lem :
    (crypto : Crypto) (json : Json) (o : QuorumModelOracle) (l : ModelLineage)
    (ss : List QuorumSignature)
    → (signers : SortedMap (Unit {0})) × IsSorted signers
      × ((key : Bytes)
          → (contains signers key ≡ true)
            ↔ Signed crypto o.publishers (signing_message json l) key ss)
      × (((0 < o.threshold)
            × (o.threshold ≤ length signers)
            × (present_lineage crypto json o l ss ≡ ok (record o { lineage = some l })))
          ⊎ (((o.threshold ≡ 0) ⊎ (length signers < o.threshold))
              × (present_lineage crypto json o l ss ≡ err oracle_unavailable)))
unfolding present_lineage
present_lineage_lem crypto json o l ss = (
  collect_valid crypto o.publishers (signing_message json l) ss SortedMap.empty,
  collect_valid-IsSorted crypto o.publishers (signing_message json l) ss SortedMap.empty tt,
  λ key. (
    λ h.
        elim (collected-Signed crypto o.publishers (signing_message json l) ss SortedMap.empty key
          h) [ inl c ↦ absurd (nothing_contained key c) | inr t ↦ t ],
    λ h.
        Signed-collected crypto o.publishers (signing_message json l) ss SortedMap.empty key
          (inr h),
  ),
  ground arith,
)
