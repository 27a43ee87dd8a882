-- ===== src/Backing/Set/Laws.antt =====
-- src/backing.rs: the propagation rule of a backing set.
use proof_of_context_impl.Prelude.{
  ◌≤◌, ◌≡◌, ◌≢◌, refl, ap, ◌∙◌, ◌⊎◌, Option, none, some, List, [], ◌∷◌, arith, if◌then◌else◌,
}
use proof_of_context_impl.Prelude.Bytes.{Bytes, ◌==◌, cmp_refl}
use proof_of_context_impl.SortedMap
use proof_of_context_impl.Backing.Oldest
use proof_of_context_impl.Backing.Oldest.Reads.{older, pick, get-insert_oldest, insert-IsValid}
use proof_of_context_impl.Backing.Oldest.Union
use proof_of_context_impl.Backing.Oldest.Union.{Agree, union-IsValid, get-union}
use proof_of_context_impl.Backing.Set.{
  BackingEntry, BackingSet, entry_key, entry_time, new, insert, insert_all, from_entries, union,
}

-- Sources in strictly ascending order, each with an entry of its own.
abbrev pub IsValid : BackingSet → Type 0
IsValid s = Oldest.IsValid entry_key entry_time s.entries

abbrev pub get : Bytes → BackingSet → Option BackingEntry
get k s = SortedMap.get k s.entries

pub new-IsValid : IsValid new
new-IsValid = record { sorted = tt; keyed = tt }

pub set-insert-IsValid : (s : BackingSet) (e : BackingEntry) → IsValid s → IsValid (insert s e)
unfolding insert
set-insert-IsValid s e h = insert-IsValid entry_key entry_time e h

insert_all-IsValid :
    (es : List BackingEntry) (s : BackingSet) → IsValid s → IsValid (insert_all s es)
unfolding insert_all
insert_all-IsValid [] s h = h
insert_all-IsValid (e ∷ es) s h = insert_all-IsValid es (insert s e) (set-insert-IsValid s e h)

pub from_entries-IsValid : (es : List BackingEntry) → IsValid (from_entries es)
unfolding from_entries
from_entries-IsValid es = insert_all-IsValid es new new-IsValid

pub set-union-IsValid : (a b : BackingSet) → IsValid a → IsValid (union a b)
unfolding union
set-union-IsValid a b h = union-IsValid entry_key entry_time a.entries b.entries h

pub get-set-insert :
    (k : Bytes) (s : BackingSet) (e : BackingEntry)
    → get k (insert s e)
      ≡ (if k == e.source_id then pick entry_time (get k s) (some e) else get k s)
unfolding insert
get-set-insert k s e = get-insert_oldest entry_key entry_time k e s.entries

pub get-set-union :
    (k : Bytes) (a b : BackingSet)
    → IsValid b
    → get k (union a b) ≡ pick entry_time (get k a) (get k b)
unfolding union
get-set-union k a b h = get-union entry_key entry_time k a.entries b.entries h

-- Building a set from entries and uniting sets give sets with one entry for each source, in source
-- order: each operation keeps the invariant.
pub set_operations_keep_invariant :
    (es : List BackingEntry) (a b : BackingSet) (e : BackingEntry)
    → IsValid a
    → IsValid (from_entries es) × IsValid (insert a e) × IsValid (union a b)
set_operations_keep_invariant es a b e h =
    (from_entries-IsValid es, set-insert-IsValid a e h, set-union-IsValid a b h)

pick_bound :
    (a b : Option BackingEntry) (e : BackingEntry)
    → (a ≡ some e) ⊎ (b ≡ some e)
    → (u : BackingEntry) × (pick entry_time a b ≡ some u)
      × (u.attested_at_secs ≤ e.attested_at_secs)
pick_bound none none e known = absurd (ground arith)
pick_bound none (some y) e known = (y, refl, ground arith)
pick_bound (some x) none e known = (x, refl, ground arith)
pick_bound (some x) (some y) e known = (older entry_time x y, refl, ground arith)

-- A derivation never rejuvenates a source: whatever either operand says of a source, the union has
-- an entry for it that was attested no later.
pub union_never_rejuvenates :
    (k : Bytes) (a b : BackingSet) (e : BackingEntry)
    → IsValid b
    → (get k a ≡ some e) ⊎ (get k b ≡ some e)
    → (u : BackingEntry) × (get k (union a b) ≡ some u) × (u.attested_at_secs ≤ e.attested_at_secs)
union_never_rejuvenates k a b e h known =
    let (u, found, older) = pick_bound (get k a) (get k b) e known in
    (u, get-set-union k a b h ∙ found, older)

-- The union invents nothing: an entry of it is the entry that one of the operands has.
pub union_invents_nothing :
    (k : Bytes) (a b : BackingSet) (u : BackingEntry)
    → IsValid b
    → get k (union a b) ≡ some u
    → (get k a ≡ some u) ⊎ (get k b ≡ some u)
union_invents_nothing k a b u h known = ground (arith, get-set-union k a b h)

-- On well-formed sets the union is associative and idempotent.
pub union_assoc_idem :
    (a b c : BackingSet)
    → IsValid a
    → IsValid b
    → IsValid c
    → (union (union a b) c ≡ union a (union b c)) × (union a a ≡ a)
unfolding union
union_assoc_idem a b c va vb vc = (
  λ i. record {
    entries = Union.merge_assoc entry_key entry_time a.entries b.entries c.entries va vb vc i;
  },
  λ i. record { entries = Union.merge_idem entry_key entry_time a.entries va i },
)

-- The order of the operands does not matter where, for every source that both have with one
-- attestation time, they have the same entry.
pub union_comm :
    (a b : BackingSet)
    → IsValid a
    → IsValid b
    → ((k : Bytes) → Agree entry_time (get k a) (get k b))
    → union a b ≡ union b a
unfolding union
union_comm a b va vb agree = λ i. record {
  entries = Union.merge_comm entry_key entry_time a.entries b.entries va vb agree i;
}

get-singleton : (e : BackingEntry) → get e.source_id (from_entries (e ∷ [])) ≡ some e
unfolding from_entries insert_all insert Oldest.insert SortedMap.insert SortedMap.get
get-singleton e = ground (arith, cmp_refl e.source_id)

-- Where two entries for a source have one attestation time and different classes, the order of the
-- operands shows: the union is not commutative.
pub union_ties_not_comm :
    (x y : BackingEntry)
    → x.source_id ≡ y.source_id
    → x.attested_at_secs ≡ y.attested_at_secs
    → x.class ≢ y.class
    → union (from_entries (x ∷ [])) (from_entries (y ∷ []))
      ≢ union (from_entries (y ∷ [])) (from_entries (x ∷ []))
union_ties_not_comm x y same time differ e =
    let k = x.source_id in
    let left = get-set-union k (from_entries (x ∷ [])) (from_entries (y ∷ [])) in
    let right = get-set-union k (from_entries (y ∷ [])) (from_entries (x ∷ [])) in
    let at_y : get k (from_entries (y ∷ [])) ≡ some y = rw same (get-singleton y) in
    ground (
      arith,
      ap (get k) e,
      left (from_entries-IsValid (y ∷ [])),
      right (from_entries-IsValid (x ∷ [])),
      get-singleton x,
      at_y,
    )
