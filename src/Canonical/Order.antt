-- ===== src/Canonical/Order.antt =====
-- src/canonical.rs: the canonical text does not depend on the order of an object's fields.
use proof_of_context_impl.Prelude.{◌≡◌, refl, ap, Option, none, some, arith, if◌then◌else◌}
use proof_of_context_impl.Prelude.Bytes.{Bytes, ◌==◌}
use proof_of_context_impl.Crypto.{Crypto}
use proof_of_context_impl.SortedMap
use proof_of_context_impl.SortedMap.{SortedMap, IsSorted}
use proof_of_context_impl.SortedMap.Laws.{get-insert, insert-IsSorted}
use proof_of_context_impl.SortedMap.Extensional.{SortedMap-ext}
use proof_of_context_impl.Canonical.{
  Value, Fields, end, field, object, Json, object_text, write_canonical, members, canonical_json,
  canonical_hash,
}

-- The value of a key.
abbrev pub get_field : Bytes → Fields → Option Value
get_field k end = none
get_field k (field j v fs) = if k == j then some v else get_field k fs

abbrev pub text_of : Json → Option Value → Option Bytes
text_of json none = none
text_of json (some v) = some (write_canonical json v)

members-IsSorted : (json : Json) (fs : Fields) → IsSorted (members json fs)
unfolding members
members-IsSorted json end = tt
members-IsSorted json (field k v fs) =
    insert-IsSorted k (write_canonical json v) (members json fs) (members-IsSorted json fs)

get-members :
    (json : Json) (k : Bytes) (fs : Fields)
    → SortedMap.get k (members json fs) ≡ text_of json (get_field k fs)
unfolding members SortedMap.get
get-members json k end = refl
get-members json k (field j v fs) =
    ground (arith, get-insert j k (write_canonical json v) (members json fs), get-members json k fs)

-- Two objects that have the same value for every key have one canonical text and one canonical hash,
-- in whatever order their fields are held.
pub canonical_order :
    (crypto : Crypto) (json : Json) (fs gs : Fields)
    → ((k : Bytes) → get_field k fs ≡ get_field k gs)
    → (canonical_json json (object fs) ≡ canonical_json json (object gs))
      × (canonical_hash crypto json (object fs) ≡ canonical_hash crypto json (object gs))
unfolding canonical_hash write_canonical
canonical_order crypto json fs gs h =
    let same =
      SortedMap-ext (members json fs) (members json gs) (members-IsSorted json fs)
        (members-IsSorted json gs) (λ k. cc (get-members json k fs, get-members json k gs, h k)) in
    let texts = ap (object_text json) same in (texts, ap crypto.sha256 texts)
