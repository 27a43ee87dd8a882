-- ===== src/Backing/Signed.antt =====
-- src/backing.rs: signed backing entries, the trusted validators, and the verified projection.
pub mod Digest
pub mod Trust
pub mod Verified
use proof_of_context_impl.Prelude.{
  ℕ, ◌+◌, ◌%◌, Bool, true, false, ◌&&◌, not, Option, none, some, List, [], ◌∷◌, ◌++◌, length,
  if◌then◌else◌,
}
use proof_of_context_impl.Prelude.Bytes.{Bytes}
use proof_of_context_impl.Prelude.Word.{u32_mod, le_bytes}
use proof_of_context_impl.Crypto.{Crypto}
use proof_of_context_impl.SortedMap
use proof_of_context_impl.SortedMap.{SortedMap}
use proof_of_context_impl.Backing.Oldest
use proof_of_context_impl.Backing.Set
use proof_of_context_impl.Backing.Set.{BackingEntry, BackingSet}

pub record SignedBackingEntry : Type 0 where
  pub entry : BackingEntry
  pub content_hash : Bytes
  pub signature : Bytes
  pub validator_pubkey : Bytes

-- A string, after its length as u32 (the cast keeps the low 32 bits).
unfoldable pub prefixed : Bytes → Bytes
prefixed s = le_bytes 4 (length s % u32_mod) ++ s

-- What signing_digest feeds to the hasher, in order.
unfoldable pub digest_preimage : BackingEntry → Bytes → Bytes
digest_preimage entry content_hash =
    prefixed entry.source_id
    ++ (le_bytes 8 entry.attested_at_secs ++ (prefixed entry.class ++ content_hash))

unfoldable pub signing_digest : Crypto → BackingEntry → Bytes → Bytes
signing_digest crypto entry content_hash = crypto.sha256 (digest_preimage entry content_hash)

-- SignedBackingEntry::sign
unfoldable pub sign : Crypto → BackingEntry → Bytes → Bytes → SignedBackingEntry
sign crypto entry content_hash key =
    let digest = signing_digest crypto entry content_hash in
    record {
      entry = entry;
      content_hash = content_hash;
      signature = crypto.sign key digest;
      validator_pubkey = crypto.verifying_key key;
    }

unfoldable pub is_signature_valid : Crypto → SignedBackingEntry → Bool
is_signature_valid crypto s =
    let digest = signing_digest crypto s.entry s.content_hash in
    if not (crypto.key_ok s.validator_pubkey)
    then false
    else crypto.verify_ok s.validator_pubkey digest s.signature

-- `BTreeSet<[u8; 32]>`
pub record TrustedValidators : Type 0 where
  pub keys : SortedMap (Unit {0})

-- TrustedValidators::new
abbrev pub no_validators : TrustedValidators
no_validators = record { keys = SortedMap.empty }

-- TrustedValidators::with
unfoldable pub with : TrustedValidators → Bytes → TrustedValidators
with t pubkey = record t { keys = SortedMap.insert pubkey tt t.keys }

unfoldable pub contains : TrustedValidators → Bytes → Bool
contains t pubkey = elim (SortedMap.get pubkey t.keys) [ some _ ↦ true | none ↦ false ]

unfoldable pub is_trusted : Crypto → TrustedValidators → SignedBackingEntry → Bool
is_trusted crypto trusted s = is_signature_valid crypto s && contains trusted s.validator_pubkey

pub record SignedBackingSet : Type 0 where
  pub entries : SortedMap SignedBackingEntry

abbrev pub signed_key : SignedBackingEntry → Bytes
signed_key s = s.entry.source_id

abbrev pub signed_time : SignedBackingEntry → ℕ
signed_time s = s.entry.attested_at_secs

-- SignedBackingSet::new
abbrev pub new : SignedBackingSet
new = record { entries = SortedMap.empty }

unfoldable pub insert : SignedBackingSet → SignedBackingEntry → SignedBackingSet
insert s signed = record s { entries = Oldest.insert signed_key signed_time signed s.entries }

-- The loop of from_entries.
unfoldable pub insert_all : SignedBackingSet → List SignedBackingEntry → SignedBackingSet
insert_all s [] = s
insert_all s (signed ∷ rest) = insert_all (insert s signed) rest

unfoldable pub from_entries : List SignedBackingEntry → SignedBackingSet
from_entries entries = insert_all new entries

unfoldable pub union : SignedBackingSet → SignedBackingSet → SignedBackingSet
union s other = record s { entries = Oldest.union signed_key signed_time s.entries other.entries }

unfoldable pub len : SignedBackingSet → ℕ
len s = length s.entries

unfoldable pub is_empty : SignedBackingSet → Bool
is_empty s = elim s.entries [ [] ↦ true | _ ∷ _ ↦ false ]

-- SignedBackingSet::iter, in source_id order
abbrev pub iter : SignedBackingSet → List SignedBackingEntry
iter s = SortedMap.values s.entries

-- The loop of into_verified, over `verified` and `rejected`.
unfoldable pub verify_all :
    Crypto → TrustedValidators → List SignedBackingEntry → BackingSet → ℕ → BackingSet × ℕ
verify_all crypto trusted [] verified rejected = (verified, rejected)
verify_all crypto trusted (signed ∷ rest) verified rejected =
    let accept = verify_all crypto trusted rest (Set.insert verified signed.entry) rejected in
    let reject = verify_all crypto trusted rest verified (rejected + 1) in
    if is_trusted crypto trusted signed then accept else reject

unfoldable pub into_verified : Crypto → SignedBackingSet → TrustedValidators → BackingSet × ℕ
into_verified crypto s trusted = verify_all crypto trusted (iter s) Set.new 0
