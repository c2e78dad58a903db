-- ===== src/Xdr/Chain.antt =====
-- XDR optional-data lists and their bounded builder (crates/nfs3_types/src/xdr_codec/list.rs).
-- `List<T>` wraps the vector of its items.
pub mod Bounded
use nfs.Prelude.{ℕ, zero, suc, ◌+◌, true, false, List, [], ◌∷◌, Result, ok, err, ◌>>=◌, length}
use nfs.Xdr.Codec.{Error, io, Codec}
use nfs.Xdr.Primitives.{pack_bool, unpack_bool, bool_codec}

module _ {A : Type 0} (c : Codec A) where
  -- The loop of `packed_size`, from the length so far.
  unfoldable pub list_size_loop : List A → ℕ → ℕ
  list_size_loop [] len = len + bool_codec.packed_size false
  list_size_loop (item ∷ items) len =
      list_size_loop items (len + bool_codec.packed_size true + c.packed_size item)

  unfoldable pub list_size : List A → ℕ
  unfolding list_size_loop
  list_size items = list_size_loop items 0

  unfoldable pub pack_list_loop : List A → ℕ → List ℕ → Result (ℕ × List ℕ) Error
  pack_list_loop [] len out = do (n, out') ← pack_bool false out; ok (len + n, out')
  pack_list_loop (item ∷ items) len out = do
    (n, out') ← pack_bool true out
    (m, out'') ← c.pack item out'
    pack_list_loop items (len + n + m) out''

  unfoldable pub pack_list : List A → List ℕ → Result (ℕ × List ℕ) Error
  unfolding pack_list_loop
  pack_list items out = pack_list_loop items 0 out

  -- One round of the loop takes four bytes at least, so the length of the input bounds the rounds:
  -- with no fuel left there is no byte left, and `bool::unpack` of nothing is an I/O error.
  unfoldable pub unpack_list_loop : ℕ → ℕ → List ℕ → Result (List A × ℕ × List ℕ) Error
  unpack_list_loop zero len input = err io
  unpack_list_loop (suc fuel) len input = do
    (more, more_len, input') ← unpack_bool input
    elim more [
      | false ↦ ok ([], len + more_len, input')
      | true ↦ do
        (item, item_len, input'') ← c.unpack input'
        (items, len', rest) ← unpack_list_loop fuel (len + more_len + item_len) input''
        ok (item ∷ items, len', rest)
    ]

  unfoldable pub unpack_list : List ℕ → Result (List A × ℕ × List ℕ) Error
  unfolding unpack_list_loop
  unpack_list input = unpack_list_loop (length input) 0 input

  abbrev pub list_codec : Codec (List A)
  list_codec = record { packed_size = list_size; pack = pack_list; unpack = unpack_list }
