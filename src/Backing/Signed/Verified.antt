-- ===== src/Backing/Signed/Verified.antt =====
-- src/backing.rs: the verified projection of a signed backing set.
use proof_of_context_impl.Prelude.{
  ℕ, ◌+◌, ◌<◌, ◌≡◌, refl, sym, ◌∙◌, true, false, Option, none, some, List, [], ◌∷◌, arith,
  if◌then◌else◌, Bool-cases, Option-cases, inl, inr,
}
use proof_of_context_impl.Prelude.Bytes.{Bytes, ==_iff, cmp_refl, eq_of_cmp}
use proof_of_context_impl.Crypto.{Crypto}
use proof_of_context_impl.SortedMap
use proof_of_context_impl.SortedMap.{SortedMap, IsSorted, Every, values}
use proof_of_context_impl.SortedMap.Laws.{get_Above}
use proof_of_context_impl.Backing.Oldest
use proof_of_context_impl.Backing.Oldest.Reads.{pick, insert-IsValid}
use proof_of_context_impl.Backing.Oldest.Union.{union-IsValid, get-union, pick-none}
use proof_of_context_impl.Backing.Set
use proof_of_context_impl.Backing.Set.{BackingEntry, BackingSet, entry_key, entry_time}
use proof_of_context_impl.Backing.Set.Laws.{get, get-set-insert}
use proof_of_context_impl.Backing.Signed.Trust.{is_trusted_iff}
use proof_of_context_impl.Backing.Signed.{
  SignedBackingEntry, TrustedValidators, is_trusted, contains, signing_digest, SignedBackingSet,
  signed_key, signed_time, new, insert, insert_all, from_entries, union, iter, verify_all,
  into_verified,
}

abbrev pub IsValidSigned : SignedBackingSet → Type 0
IsValidSigned s = Oldest.IsValid signed_key signed_time s.entries

abbrev pub get_signed : Bytes → SignedBackingSet → Option SignedBackingEntry
get_signed k s = SortedMap.get k s.entries

insert_all-IsValid :
    (es : List SignedBackingEntry) (s : SignedBackingSet)
    → IsValidSigned s
    → IsValidSigned (insert_all s es)
unfolding insert_all insert
insert_all-IsValid [] s h = h
insert_all-IsValid (e ∷ es) s h =
    insert_all-IsValid es (insert s e) (insert-IsValid signed_key signed_time e h)

pub from_entries-IsValidSigned : (es : List SignedBackingEntry) → IsValidSigned (from_entries es)
unfolding from_entries
from_entries-IsValidSigned es = insert_all-IsValid es new (record { sorted = tt; keyed = tt })

pub union-IsValidSigned : (a b : SignedBackingSet) → IsValidSigned a → IsValidSigned (union a b)
unfolding union
union-IsValidSigned a b h = union-IsValid signed_key signed_time a.entries b.entries h

module _ (crypto : Crypto) (trusted : TrustedValidators) where
  -- What is left of a signed entry: its claim, if it is trusted.
  abbrev pub accepted : Option SignedBackingEntry → Option BackingEntry
  accepted none = none
  accepted (some s) = if is_trusted crypto trusted s then some s.entry else none

  abbrev pub count_untrusted : List SignedBackingEntry → ℕ
  count_untrusted [] = 0
  count_untrusted (s ∷ ss) = (if is_trusted crypto trusted s then 0 else 1) + count_untrusted ss

  get-verify_all :
      (k : Bytes) (m : SortedMap SignedBackingEntry) (v : BackingSet) (r : ℕ)
      → IsSorted m
      → Every (λ k s. k ≡ signed_key s) m
      → get k (verify_all crypto trusted (values m) v r).0
        ≡ pick entry_time (get k v) (accepted (SortedMap.get k m))
  unfolding verify_all SortedMap.get
  get-verify_all k [] v r s h = sym (pick-none entry_time (get k v))
  get-verify_all k ((j, x) ∷ m) v r s h = elim (Bool-cases (is_trusted crypto trusted x)) [
    | inl trust ↦ rw trust (
        get-verify_all k m (Set.insert v x.entry) r s.1 h.1
        ∙ ground (
          arith,
          get-set-insert k v x.entry,
          h.0,
          ==_iff k x.entry.source_id,
          eq_of_cmp k j,
          cmp_refl k,
          get_Above j m s.0,
          pick-none entry_time (get k v),
        ))
    | inr refuse ↦ rw refuse (
        get-verify_all k m v (r + 1) s.1 h.1
        ∙ ground (arith, eq_of_cmp k j, get_Above j m s.0, pick-none entry_time (get k v)))
  ]

  rejected_lem :
      (ss : List SignedBackingEntry) (v : BackingSet) (r : ℕ)
      → (verify_all crypto trusted ss v r).1 ≡ r + count_untrusted ss
  unfolding verify_all
  rejected_lem [] v r = omega arith
  rejected_lem (s ∷ ss) v r =
      ground (arith, rejected_lem ss (Set.insert v s.entry) r, rejected_lem ss v (r + 1))

  pick_empty : (k : Bytes) (o : Option BackingEntry) → pick entry_time (get k Set.new) o ≡ o
  unfolding SortedMap.get
  pick_empty k o = refl

  -- For every source, the verified set has the claim of the signed entry if that entry is trusted, and
  -- nothing otherwise; the other result is the number of entries that are not trusted.
  pub into_verified_lem :
      (s : SignedBackingSet)
      → IsValidSigned s
      → ((k : Bytes) → get k (into_verified crypto s trusted).0 ≡ accepted (get_signed k s))
        × ((into_verified crypto s trusted).1 ≡ count_untrusted (iter s))
  unfolding into_verified
  into_verified_lem s h = (
    λ k.
        get-verify_all k s.entries Set.new 0 h.sorted h.keyed
        ∙ pick_empty k (accepted (get_signed k s)),
    rejected_lem (iter s) Set.new 0 ∙ omega arith,
  )

-- A claim in the verified set was signed: the set that was verified has, for its source, an entry with
-- that claim, whose key is trusted and whose signature verifies over the claim's own digest.
pub verified_is_attested :
    (crypto : Crypto) (trusted : TrustedValidators) (s : SignedBackingSet) (k : Bytes)
    (e : BackingEntry)
    → IsValidSigned s
    → get k (into_verified crypto s trusted).0 ≡ some e
    → (x : SignedBackingEntry) × (get_signed k s ≡ some x)
      × (x.entry ≡ e)
      × (contains trusted x.validator_pubkey ≡ true)
      × (crypto.verify_ok x.validator_pubkey (signing_digest crypto e x.content_hash) x.signature
          ≡ true)
verified_is_attested crypto trusted s k e h found = elim (Option-cases (get_signed k s)) [
  | inl absent ↦ absurd (ground (arith, (into_verified_lem crypto trusted s h).0 k))
  | inr (x, present) ↦
      let both : (is_trusted crypto trusted x ≡ true) × (x.entry ≡ e) =
        ground (arith, (into_verified_lem crypto trusted s h).0 k) in
      let facts = (is_trusted_iff crypto trusted x).0 both.0 in
      (x, present, both.1, facts.2, rw (← both.1) facts.1)
]

-- An entry that nobody trusts, with an older time, takes the place of a trusted entry for the same
-- source when signed sets are united: the verified set then has nothing for that source.
pub untrusted_older_displaces :
    (crypto : Crypto) (trusted : TrustedValidators) (a b : SignedBackingSet)
    (x y : SignedBackingEntry) (k : Bytes)
    → IsValidSigned a
    → IsValidSigned b
    → get_signed k a ≡ some x
    → get_signed k b ≡ some y
    → y.entry.attested_at_secs < x.entry.attested_at_secs
    → is_trusted crypto trusted y ≡ false
    → get k (into_verified crypto (union a b) trusted).0 ≡ none
unfolding union
untrusted_older_displaces crypto trusted a b x y k va vb at_a at_b older refuse = ground (
  arith,
  (into_verified_lem crypto trusted (union a b) (union-IsValidSigned a b va)).0 k,
  get-union signed_key signed_time k a.entries b.entries vb,
)
