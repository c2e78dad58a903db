-- ===== src/Xdr/Opaque.antt =====
-- Variable-length opaque data (crates/nfs3_types/src/xdr_codec/opaque.rs). `Opaque` wraps its bytes.
use nfs.Prelude.{ℕ, ◌+◌, ◌^◌, List, Result, ok, err, ◌>>=◌, length, ltb, if◌then◌else◌}
use nfs.Xdr.Codec.{Error, object_too_large, read_exact, write_all, Codec}
use nfs.Xdr.Util.{add_padding, get_padding, zero_padding}
use nfs.Xdr.Primitives.{unpack_padding, pack_u32, unpack_u32}

unfoldable pub pack_opaque : List ℕ → List ℕ → Result (ℕ × List ℕ) Error
pack_opaque bytes out =
    if ltb (length bytes) (2 ^ 32)
    then (do
      (bytes_written, out') ← pack_u32 (length bytes) out
      let padding = zero_padding (length bytes)
      ok (bytes_written + length bytes + length padding, write_all padding (write_all bytes out')))
    else err (object_too_large (length bytes))

unfoldable pub unpack_opaque : List ℕ → Result (List ℕ × ℕ × List ℕ) Error
unpack_opaque input = do
  (len, bytes_read, input') ← unpack_u32 input
  (buf, rest) ← read_exact len input'
  unpack_padding buf (bytes_read + len) (get_padding len) rest

abbrev pub opaque_codec : Codec (List ℕ)
opaque_codec = record {
  packed_size = λ bytes. 4 + add_padding (length bytes);
  pack = pack_opaque;
  unpack = unpack_opaque;
}
