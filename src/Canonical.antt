-- ===== src/Canonical.antt =====
-- src/canonical.rs: canonical JSON and its SHA-256. Strings are their UTF-8 bytes.
pub mod Order
mod Tests
use proof_of_context_impl.Prelude.{ℕ, Bool, Option, List, [], ◌∷◌, ◌++◌}
use proof_of_context_impl.Prelude.Bytes.{Bytes}
use proof_of_context_impl.Crypto.{Crypto}
use proof_of_context_impl.SortedMap
use proof_of_context_impl.SortedMap.{SortedMap}

-- `serde_json::Value`. A number is a u64, a negative i64 by its
-- absolute value, or the bits of an f64; the fields of an object stand in the
-- order in which its map holds them.
mutual
  pub data Value : Type 0 where
    null : Value
    bool : Bool → Value
    number : ℕ → Value
    negative : ℕ → Value
    float : ℕ → Value
    string : Bytes → Value
    array : Items → Value
    object : Fields → Value

  pub data Items : Type 0 where
    nil : Items
    cons : Value → Items → Items

  pub data Fields : Type 0 where
    end : Fields
    field : Bytes → Value → Fields → Fields

-- What the program takes from `serde_json` and `hex`.
pub record Json : Type 0 where
  -- `Value::String(s).to_string()`: the quotes and the escapes
  pub quote : Bytes → Bytes
  -- `to_string()` of a boolean, a u64, a negative i64, an f64, and of null
  pub bool_text : Bool → Bytes
  pub number_text : ℕ → Bytes
  pub negative_text : ℕ → Bytes
  pub float_text : ℕ → Bytes
  pub null_text : Bytes
  -- `hex::encode`
  pub hex : Bytes → Bytes
  -- `hex::decode_to_slice` into an array of this size
  pub decode_hex : ℕ → Bytes → Option Bytes
  -- `Value::get`, arguments: value, key
  pub get : Value → Bytes → Option Value
  pub as_str : Value → Option Bytes
  pub as_u64 : Value → Option ℕ

-- Texts, each behind a comma.
abbrev pub commas : List Bytes → Bytes
commas [] = []
commas (t ∷ ts) = b',' ∷ (t ++ commas ts)

-- Texts with a comma between each two.
abbrev pub join : List Bytes → Bytes
join [] = []
join (t ∷ ts) = t ++ commas ts

-- The quoted key, a colon, the text of the value.
abbrev pub member_texts : Json → SortedMap Bytes → List Bytes
member_texts json [] = []
member_texts json ((k, t) ∷ m) = (json.quote k ++ b':' ∷ t) ∷ member_texts json m

-- `{`, the members in key order, `}`.
abbrev pub object_text : Json → SortedMap Bytes → Bytes
object_text json m = b'{' ∷ (join (member_texts json m) ++ b'}' ∷ [])

-- write_canonical. The keys of an object are distinct, so to sort them and to look each one up is to
-- enter each member into a sorted map.
unfoldable mutual
  pub write_canonical : Json → Value → Bytes
  write_canonical json null = json.null_text
  write_canonical json (bool b) = json.bool_text b
  write_canonical json (number n) = json.number_text n
  write_canonical json (negative n) = json.negative_text n
  write_canonical json (float x) = json.float_text x
  write_canonical json (string s) = json.quote s
  write_canonical json (array xs) = b'[' ∷ (join (item_texts json xs) ++ b']' ∷ [])
  write_canonical json (object fs) = object_text json (members json fs)

  pub item_texts : Json → Items → List Bytes
  item_texts json nil = []
  item_texts json (cons x xs) = write_canonical json x ∷ item_texts json xs

  pub members : Json → Fields → SortedMap Bytes
  members json end = SortedMap.empty
  members json (field k v fs) = SortedMap.insert k (write_canonical json v) (members json fs)

unfoldable pub canonical_json : Json → Value → Bytes
canonical_json json value = write_canonical json value

unfoldable pub canonical_hash : Crypto → Json → Value → Bytes
unfolding canonical_json
canonical_hash crypto json value = crypto.sha256 (canonical_json json value)
