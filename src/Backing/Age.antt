-- ===== src/Backing/Age.antt =====
-- src/backing.rs: the age that crosses a trust boundary.
use proof_of_context_impl.Prelude.{
  ℕ, ◌≤◌, ◌≡◌, refl, ap, ◌∙◌, Option, none, some, List, [], ◌∷◌, arith, max, leb, Option-cases,
  Bool-cases, Ordering-cases, inl, inr,
}
use proof_of_context_impl.Prelude.Bytes.{Bytes, cmp}
use proof_of_context_impl.SortedMap
use proof_of_context_impl.SortedMap.{SortedMap, values}
use proof_of_context_impl.Backing.Oldest
use proof_of_context_impl.Backing.Set.{
  BackingEntry, BackingSet, entry_key, entry_time, age_secs, union, max_age_of, max_age_secs, iter,
}

-- The larger of two ages, either of which may be missing.
abbrev pub max_option : Option ℕ → Option ℕ → Option ℕ
max_option none b = b
max_option (some x) none = some x
max_option (some x) (some y) = some (max x y)

max_option_assoc :
    (a b c : Option ℕ) → max_option (max_option a b) c ≡ max_option a (max_option b c)
max_option_assoc none b c = refl
max_option_assoc (some x) none c = refl
max_option_assoc (some x) (some y) none = refl
max_option_assoc (some x) (some y) (some z) = ap some (omega arith)

module _ (now : ℕ) where
  abbrev ages : SortedMap BackingEntry → Option ℕ
  ages m = max_age_of (values m) now

  head_age :
      (e : BackingEntry) (es : List BackingEntry)
      → max_option (some (age_secs e now)) (max_age_of es now) ≡ max_age_of (e ∷ es) now
  head_age e es = ground arith

  -- An entry is no older than the maximum.
  age-le-max :
      (k : Bytes) (e : BackingEntry) (m : SortedMap BackingEntry)
      → SortedMap.get k m ≡ some e
      → max_option (ages m) (some (age_secs e now)) ≡ ages m
  unfolding SortedMap.get
  age-le-max k e [] h = cc
  age-le-max k e ((j, w) ∷ m) h = ground (arith, age-le-max k e m)

  -- A write that replaces no older entry.
  ages-insert :
      (k : Bytes) (e : BackingEntry) (m : SortedMap BackingEntry)
      → ((w : BackingEntry) → SortedMap.get k m ≡ some w → age_secs w now ≤ age_secs e now)
      → ages (SortedMap.insert k e m) ≡ max_option (ages m) (some (age_secs e now))
  unfolding SortedMap.get SortedMap.insert
  ages-insert k e [] h = refl
  ages-insert k e ((j, w) ∷ m) h = elim (Ordering-cases (cmp k j)) [
    | inl before ↦ ground arith
    | inr (inl same) ↦ ground (arith, h w)
    | inr (inr after) ↦
        let ih = ages-insert k e m (λ u p. h u (rw (after, SortedMap.get) p)) in ground (arith, ih)
  ]

  ages-insert_oldest :
      (e : BackingEntry) (m : SortedMap BackingEntry)
      → ages (Oldest.insert entry_key entry_time e m) ≡ max_option (ages m) (some (age_secs e now))
  unfolding Oldest.insert age_secs
  ages-insert_oldest e m = elim (Option-cases (SortedMap.get e.source_id m)) [
    | inl absent ↦ rw (absent, Oldest.insert) (ages-insert e.source_id e m (λ w p. ground arith))
    | inr (w, present) ↦ elim (Bool-cases (leb w.attested_at_secs e.attested_at_secs)) [
      | inl kept ↦
          rw (present, Oldest.insert) (rw kept (ground (arith, age-le-max e.source_id w m present)))
      | inr replaced ↦
          rw (present, Oldest.insert)
            (rw replaced (ages-insert e.source_id e m (λ u p. ground arith)))
    ]
  ]

  ages-extend :
      (m : SortedMap BackingEntry) (es : List BackingEntry)
      → ages (Oldest.extend entry_key entry_time m es) ≡ max_option (ages m) (max_age_of es now)
  unfolding Oldest.extend
  ages-extend m [] = ground arith
  ages-extend m (e ∷ es) =
      ages-extend (Oldest.insert entry_key entry_time e m) es
      ∙ ap (λ x. max_option x (max_age_of es now)) (ages-insert_oldest e m)
      ∙ max_option_assoc (ages m) (some (age_secs e now)) (max_age_of es now)
      ∙ ap (max_option (ages m)) (head_age e es)

-- The age of a derived set is the larger of the ages of its inputs, at every time: the clock of a
-- derivation cannot be reset, also where the inputs disagree on times or classes.
pub max_age-union :
    (a b : BackingSet) (now : ℕ)
    → max_age_secs (union a b) now ≡ max_option (max_age_secs a now) (max_age_secs b now)
unfolding max_age_secs union Oldest.union
max_age-union a b now = ages-extend now a.entries (iter b)
