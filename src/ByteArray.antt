-- ===== src/ByteArray.antt =====
-- src/backing.rs, mod byte_array_serde: how a byte array is read from a format of serde. The mod serde_bytes of src/commitment.rs is the same code.
pub mod Laws
mod Tests
use proof_of_context_impl.Prelude.{
  ℕ, zero, suc, not, Option, none, some, [], ◌∷◌, length, ◌==◌, if◌then◌else◌,
}
use proof_of_context_impl.Prelude.Bytes.{Bytes, text}
use proof_of_context_impl.Error.{Result, ok, err}

-- BytesVisitor::visit_bytes, for arrays of `size` bytes
unfoldable pub visit_bytes : ℕ → Bytes → Result Bytes Bytes
visit_bytes size v = if not (length v == size) then err (text "wrong length") else ok v

module _ {Input : Type 0} where
  abbrev pub push : ℕ → Result Bytes Bytes × Input → Result Bytes Bytes × Input
  push b (ok bs, s) = (ok (b ∷ bs), s)
  push b (err e, s) = (err e, s)

  -- One round of the loop over the bytes of the array, then the rest of it.
  abbrev pub fill_slot :
      Result Bytes (Option ℕ) × Input
      → (Input → Result Bytes Bytes × Input)
      → Result Bytes Bytes × Input
  fill_slot (ok (some b), s) rest = push b (rest s)
  fill_slot (ok none, s) rest = (err (text "short sequence"), s)
  fill_slot (err e, s) rest = (err e, s)

  -- BytesVisitor::visit_seq, for arrays of this size, where `next` is `seq.next_element()`: the
  -- elements of a sequence, one after another, and `none` behind the last.
  unfoldable pub visit_seq :
      ℕ → (Input → Result Bytes (Option ℕ) × Input) → Input → Result Bytes Bytes × Input
  visit_seq zero next s = (ok [], s)
  visit_seq (suc size) next s = fill_slot (next s) (λ s'. visit_seq size next s')

-- The elements of a list.
abbrev pub next_of_list : Bytes → Result Bytes (Option ℕ) × Bytes
next_of_list [] = (ok none, [])
next_of_list (b ∷ bs) = (ok (some b), bs)
