-- ===== src/Xdr/Primitives.antt =====
-- The codecs of numbers, booleans and byte arrays (xdr_codec/primitives.rs) and of nothing
-- (xdr_codec/void.rs).
use nfs.Prelude.{
  ℕ, zero, suc, ◌+◌, ◌*◌, ◌/◌, ◌%◌, ◌^◌, ◌<◌, Bool, true, false, List, [], ◌∷◌, ◌++◌, Result, ok,
  err, ◌>>=◌, length, ltb, ◌==◌, if◌then◌else◌,
}
use nfs.Xdr.Codec.{Error, invalid_enum_value, object_too_large, read_exact, write_all, Codec}
use nfs.Xdr.Util.{add_padding, get_padding, zero_padding}

abbrev pub IsU32 : ℕ → Type 0
IsU32 n = n < 2 ^ 32

abbrev pub IsU64 : ℕ → Type 0
IsU64 n = n < 2 ^ 64

-- `u32::to_be_bytes` and `u32::from_be_bytes`.
unfoldable pub to_be_bytes : ℕ → List ℕ
to_be_bytes n = (n / 2 ^ 24 % 256) ∷ (n / 2 ^ 16 % 256) ∷ (n / 2 ^ 8 % 256) ∷ (n % 256) ∷ []

unfoldable pub from_be_bytes : List ℕ → ℕ
from_be_bytes (a ∷ b ∷ c ∷ d ∷ []) = ((a * 256 + b) * 256 + c) * 256 + d
from_be_bytes _ = 0

unfoldable pub pack_u32 : ℕ → List ℕ → Result (ℕ × List ℕ) Error
pack_u32 n out = ok (4, write_all (to_be_bytes n) out)

unfoldable pub unpack_u32 : List ℕ → Result (ℕ × ℕ × List ℕ) Error
unpack_u32 input = do (bytes, rest) ← read_exact 4 input; ok (from_be_bytes bytes, 4, rest)

abbrev pub u32_codec : Codec ℕ
u32_codec = record { packed_size = λ _. 4; pack = pack_u32; unpack = unpack_u32 }

-- `u64::to_be_bytes` and `u64::from_be_bytes`: the high word goes first.
unfoldable pub to_be_bytes_u64 : ℕ → List ℕ
to_be_bytes_u64 n = to_be_bytes (n / 2 ^ 32) ++ to_be_bytes (n % 2 ^ 32)

unfoldable pub from_be_bytes_u64 : List ℕ → ℕ
from_be_bytes_u64 (a ∷ b ∷ c ∷ d ∷ low) =
    from_be_bytes (a ∷ b ∷ c ∷ d ∷ []) * 2 ^ 32 + from_be_bytes low
from_be_bytes_u64 _ = 0

unfoldable pub pack_u64 : ℕ → List ℕ → Result (ℕ × List ℕ) Error
pack_u64 n out = ok (8, write_all (to_be_bytes_u64 n) out)

unfoldable pub unpack_u64 : List ℕ → Result (ℕ × ℕ × List ℕ) Error
unpack_u64 input = do (bytes, rest) ← read_exact 8 input; ok (from_be_bytes_u64 bytes, 8, rest)

abbrev pub u64_codec : Codec ℕ
u64_codec = record { packed_size = λ _. 8; pack = pack_u64; unpack = unpack_u64 }

unfoldable pub pack_bool : Bool → List ℕ → Result (ℕ × List ℕ) Error
pack_bool b out = pack_u32 (if b then 1 else 0) out

unfoldable pub unpack_bool : List ℕ → Result (Bool × ℕ × List ℕ) Error
unpack_bool input = do
  (val, bytes_read, rest) ← unpack_u32 input
  if val == 0
      then ok (false, bytes_read, rest)
      else if val == 1
      then ok (true, bytes_read, rest)
      else err (invalid_enum_value val)

abbrev pub bool_codec : Codec Bool
bool_codec = record { packed_size = λ _. 4; pack = pack_bool; unpack = unpack_bool }

-- `[u8; N]`.
unfoldable pub pack_array : ℕ → List ℕ → List ℕ → Result (ℕ × List ℕ) Error
pack_array n bytes out =
    let padding = zero_padding n in ok (n + length padding, write_all padding (write_all bytes out))

-- The padding that follows `buf`, if there is any.
unfoldable pub unpack_padding : List ℕ → ℕ → ℕ → List ℕ → Result (List ℕ × ℕ × List ℕ) Error
unpack_padding buf bytes_read padding input =
    if ltb 0 padding
    then (do (pad_buf, rest) ← read_exact padding input; ok (buf, bytes_read + padding, rest))
    else ok (buf, bytes_read, input)

unfoldable pub unpack_array : ℕ → List ℕ → Result (List ℕ × ℕ × List ℕ) Error
unpack_array n input = do
  (buf, rest) ← read_exact n input
  unpack_padding buf n (get_padding n) rest

abbrev pub array_codec : ℕ → Codec (List ℕ)
array_codec n = record {
  packed_size = λ _. add_padding n;
  pack = pack_array n;
  unpack = unpack_array n;
}

-- `Vec<u32>`.
unfoldable pub pack_items : List ℕ → ℕ → List ℕ → Result (ℕ × List ℕ) Error
pack_items [] bytes_written out = ok (bytes_written, out)
pack_items (item ∷ items) bytes_written out = do
  (n, out') ← pack_u32 item out
  pack_items items (bytes_written + n) out'

unfoldable pub pack_vec_u32 : List ℕ → List ℕ → Result (ℕ × List ℕ) Error
unfolding pack_items
pack_vec_u32 vec out =
    if ltb (length vec) (2 ^ 32)
    then (do (n, out') ← pack_u32 (length vec) out; pack_items vec n out')
    else err (object_too_large (length vec))

unfoldable pub unpack_items : ℕ → ℕ → List ℕ → Result (List ℕ × ℕ × List ℕ) Error
unpack_items zero bytes_read input = ok ([], bytes_read, input)
unpack_items (suc len) bytes_read input = do
  (item, item_bytes, input') ← unpack_u32 input
  (vec, bytes_read', rest) ← unpack_items len (bytes_read + item_bytes) input'
  ok (item ∷ vec, bytes_read', rest)

unfoldable pub unpack_vec_u32 : List ℕ → Result (List ℕ × ℕ × List ℕ) Error
unfolding unpack_items
unpack_vec_u32 input = do
  (len, len_bytes, input') ← unpack_u32 input
  unpack_items len len_bytes input'

abbrev pub vec_u32_codec : Codec (List ℕ)
vec_u32_codec = record {
  packed_size = λ vec. 4 + length vec * 4;
  pack = pack_vec_u32;
  unpack = unpack_vec_u32;
}

-- `Void`.
abbrev pub void_codec : Codec Unit
void_codec = record {
  packed_size = λ _. 0;
  pack = λ _ out. ok (0, out);
  unpack = λ input. ok (tt, 0, input);
}
