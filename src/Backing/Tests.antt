-- ===== src/Backing/Tests.antt =====
-- src/backing.rs: the theorems at sample sets.
use proof_of_context_impl.Prelude.{
  String, ℕ, ◌≡◌, ◌≢◌, ◌↔◌, ◌⊎◌, refl, inl, inr, false, none, some, [], ◌∷◌, All, arith, Bool-cases,
}
use proof_of_context_impl.Prelude.Bytes.{Bytes, text, cmp}
use proof_of_context_impl.Prelude.Word.{le_bytes}
use proof_of_context_impl.Crypto.{Collision}
use proof_of_context_impl.Fixtures.{crypto, hash, pad}
use proof_of_context_impl.SortedMap
use proof_of_context_impl.Backing.Oldest
use proof_of_context_impl.Backing.Set.{
  BackingEntry, BackingSet, entry_time, insert, insert_all, from_entries, union, iter, age_secs,
}
use proof_of_context_impl.Backing.Set.Laws.{IsValid, get, from_entries-IsValid, union_ties_not_comm}
use proof_of_context_impl.Backing.Oldest.Union.{Agree}
use proof_of_context_impl.Backing.Gate.{
  AgePolicy, fresh, stale, limit_for, check, stale_entries, gate,
}
use proof_of_context_impl.Backing.Gate.Verdict.{IsCurrent, finding, gate_fresh_iff}
use proof_of_context_impl.Backing.Gate.Derived.{SameClasses, union_fresh_iff}
use proof_of_context_impl.Backing.Signed
use proof_of_context_impl.Backing.Signed.{
  SignedBackingEntry, SignedBackingSet, TrustedValidators, no_validators, with, contains, sign,
  signing_digest, digest_preimage, prefixed, is_trusted, is_signature_valid, into_verified,
}
use proof_of_context_impl.Backing.Signed.Digest.{IsEntry, entry_digest-binds}
use proof_of_context_impl.Backing.Signed.Trust.{is_trusted_iff}
use proof_of_context_impl.Backing.Signed.Verified.{
  get_signed, accepted, count_untrusted, from_entries-IsValidSigned, into_verified_lem,
  untrusted_older_displaces,
}

abbrev entry : String → ℕ → String → BackingEntry
entry source time class = record {
  source_id = text source;
  attested_at_secs = time;
  class = text class;
}

-- a price from one feed at two times, and another feed
abbrev early : BackingEntry
early = entry "a" 100 "price"

abbrev late : BackingEntry
late = entry "a" 400 "price"

abbrev other : BackingEntry
other = entry "b" 300 "price"

abbrev left : BackingSet
left = from_entries (late ∷ other ∷ [])

abbrev right : BackingSet
right = from_entries (early ∷ [])

abbrev policy : AgePolicy
policy = record {
  max_age_secs_by_class = SortedMap.insert (text "price") 60 SortedMap.empty;
  default_max_age_secs = none;
}

left-IsValid : IsValid left
left-IsValid = from_entries-IsValid (late ∷ other ∷ [])

right-IsValid : IsValid right
right-IsValid = from_entries-IsValid (early ∷ [])

left_has_late : get (text "a") left ≡ some late
unfolding from_entries insert_all insert Oldest.insert SortedMap.insert SortedMap.get cmp
left_has_late = refl

sets-Agree : (k : Bytes) → Agree entry_time (get k left) (get k right)
unfolding from_entries insert_all insert Oldest.insert SortedMap.insert SortedMap.get cmp
sets-Agree k = ground arith

union_ties_not_comm_example :
    union (from_entries (entry "a" 100 "price" ∷ [])) (from_entries (entry "a" 100 "weather" ∷ []))
    ≢ union
        (from_entries (entry "a" 100 "weather" ∷ []))
        (from_entries (entry "a" 100 "price" ∷ []))
union_ties_not_comm_example =
    union_ties_not_comm (entry "a" 100 "price") (entry "a" 100 "weather") refl refl (λ e. cc e)

gate_fresh_iff_example : (gate left policy 420 ≡ fresh) ↔ All (IsCurrent policy 420) (iter left)
gate_fresh_iff_example = gate_fresh_iff left policy 420

-- At second 420 the other feed is 120 seconds old.
left_is_stale : gate left policy 420 ≡ stale (finding policy 420 other ∷ [])
unfolding from_entries insert_all insert Oldest.insert SortedMap.insert SortedMap.get gate
    stale_entries check limit_for age_secs cmp
left_is_stale = refl

same_classes : SameClasses left right
unfolding from_entries insert_all insert Oldest.insert SortedMap.insert SortedMap.get cmp
same_classes k x y h i = ground arith

union_fresh_iff_example :
    (gate (union left right) policy 420 ≡ fresh)
    ↔ ((gate left policy 420 ≡ fresh) × (gate right policy 420 ≡ fresh))
union_fresh_iff_example =
    union_fresh_iff left right policy 420 left-IsValid right-IsValid same_classes

early-IsEntry : IsEntry early
early-IsEntry = record { source = omega arith; class = omega arith; time = omega arith }

-- Contents that differ in the thirteenth byte.
abbrev content : Bytes
content = pad 32 (1 ∷ 0 ∷ 0 ∷ 0 ∷ 0 ∷ 0 ∷ 0 ∷ 0 ∷ 0 ∷ 0 ∷ 0 ∷ 0 ∷ 7 ∷ [])

same_digest : signing_digest crypto early (hash 1) ≡ signing_digest crypto early content
unfolding signing_digest digest_preimage prefixed le_bytes
same_digest = refl

entry_digest-binds_example : ((early ≡ early) × (hash 1 ≡ content)) ⊎ Collision crypto
entry_digest-binds_example =
    entry_digest-binds crypto early early (hash 1) content early-IsEntry early-IsEntry same_digest

abbrev trusted : TrustedValidators
trusted = with no_validators (text "validator")

abbrev signed : SignedBackingEntry
signed = sign crypto late (hash 1) (text "validator")

-- the same source, earlier, signed by a key that is not trusted
abbrev forged : SignedBackingEntry
forged = sign crypto early (hash 1) (text "nobody")

abbrev honest : SignedBackingSet
honest = Signed.from_entries (signed ∷ [])

abbrev spoiler : SignedBackingSet
spoiler = Signed.from_entries (forged ∷ [])

into_verified_lem_example :
    ((k : Bytes)
      → get k (into_verified crypto honest trusted).0
        ≡ accepted crypto trusted (get_signed k honest))
    × ((into_verified crypto honest trusted).1
        ≡ count_untrusted crypto trusted (Signed.iter honest))
into_verified_lem_example =
    into_verified_lem crypto trusted honest (from_entries-IsValidSigned (signed ∷ []))

honest_has_signed : get_signed (text "a") honest ≡ some signed
unfolding Signed.from_entries Signed.insert_all Signed.insert Oldest.insert SortedMap.insert
    SortedMap.get sign cmp
honest_has_signed = refl

spoiler_has_forged : get_signed (text "a") spoiler ≡ some forged
unfolding Signed.from_entries Signed.insert_all Signed.insert Oldest.insert SortedMap.insert
    SortedMap.get sign cmp
spoiler_has_forged = refl

forged_is_refused : is_trusted crypto trusted forged ≡ false
unfolding contains with sign SortedMap.insert SortedMap.get cmp
forged_is_refused = elim (Bool-cases (is_trusted crypto trusted forged)) [
  | inl t ↦ absurd (cc (((is_trusted_iff crypto trusted forged).0 t).2))
  | inr f ↦ f
]

untrusted_older_displaces_example :
    get (text "a") (into_verified crypto (Signed.union honest spoiler) trusted).0 ≡ none
unfolding sign
untrusted_older_displaces_example =
    untrusted_older_displaces crypto trusted honest spoiler signed forged (text "a")
      (from_entries-IsValidSigned (signed ∷ [])) (from_entries-IsValidSigned (forged ∷ []))
      honest_has_signed spoiler_has_forged (omega arith) forged_is_refused
