-- ===== src/Backing/Set.antt =====
-- src/backing.rs: BackingEntry, BackingSet and BoundaryAge, with the operations of a backing set.
pub mod Laws
use proof_of_context_impl.Prelude.{
  ℕ, Bool, true, false, Option, none, some, List, [], ◌∷◌, max, length,
}
use proof_of_context_impl.Prelude.Bytes.{Bytes}
use proof_of_context_impl.Prelude.Word.{saturating_sub}
use proof_of_context_impl.SortedMap
use proof_of_context_impl.SortedMap.{SortedMap}
use proof_of_context_impl.Backing.Oldest

pub record BackingEntry : Type 0 where
  pub source_id : Bytes
  pub attested_at_secs : ℕ
  pub class : Bytes

pub record BackingSet : Type 0 where
  pub entries : SortedMap BackingEntry

pub record BoundaryAge : Type 0 where
  pub max_age_secs : ℕ

abbrev pub entry_key : BackingEntry → Bytes
entry_key e = e.source_id

abbrev pub entry_time : BackingEntry → ℕ
entry_time e = e.attested_at_secs

-- BackingEntry::age_secs
unfoldable pub age_secs : BackingEntry → ℕ → ℕ
age_secs e now_secs = saturating_sub now_secs e.attested_at_secs

-- BackingSet::new
abbrev pub new : BackingSet
new = record { entries = SortedMap.empty }

unfoldable pub insert : BackingSet → BackingEntry → BackingSet
insert s entry = record s { entries = Oldest.insert entry_key entry_time entry s.entries }

-- The loop of from_entries.
unfoldable pub insert_all : BackingSet → List BackingEntry → BackingSet
insert_all s [] = s
insert_all s (entry ∷ rest) = insert_all (insert s entry) rest

unfoldable pub from_entries : List BackingEntry → BackingSet
from_entries entries = insert_all new entries

unfoldable pub union : BackingSet → BackingSet → BackingSet
union s other = record s { entries = Oldest.union entry_key entry_time s.entries other.entries }

unfoldable pub len : BackingSet → ℕ
len s = length s.entries

unfoldable pub is_empty : BackingSet → Bool
is_empty s = elim s.entries [ [] ↦ true | _ ∷ _ ↦ false ]

-- BackingSet::iter, in source_id order
abbrev pub iter : BackingSet → List BackingEntry
iter s = SortedMap.values s.entries

-- `Iterator::max` of the ages.
abbrev pub max_age_of : List BackingEntry → ℕ → Option ℕ
max_age_of [] now_secs = none
max_age_of (e ∷ es) now_secs = elim (max_age_of es now_secs) [
  | none ↦ some (age_secs e now_secs)
  | some oldest ↦ some (max (age_secs e now_secs) oldest)
]

unfoldable pub max_age_secs : BackingSet → ℕ → Option ℕ
max_age_secs s now_secs = max_age_of (SortedMap.values s.entries) now_secs

unfoldable pub to_boundary : BackingSet → ℕ → Option BoundaryAge
unfolding max_age_secs
to_boundary s now_secs = elim (max_age_secs s now_secs) [
  | none ↦ none
  | some age ↦ some (record { max_age_secs = age })
]
