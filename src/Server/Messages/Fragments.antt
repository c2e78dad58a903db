-- ===== src/Server/Messages/Fragments.antt =====
-- Messages in fragments: what crates/nfs3_server/src/rpcwire.rs writes to a socket and reads from it.
use nfs.Prelude.{
  length-append, ◌≤◌, sym, ℕ, zero, suc, ◌<◌, ◌%◌, ◌^◌, ◌≡◌, Bool, true, false, some, List, ◌++◌,
  ok, length, lt→ltb, some-injective, append_assoc, arith,
}
use nfs.Xdr.Codec.{read_exact, read_exact-append}
use nfs.Xdr.Primitives.{to_be_bytes}
use nfs.Rpc.Fragment.{
  FragmentHeader, new, into_xdr_buf, from_buf, fragment_length, eof, from_buf-into_xdr_buf,
}
use nfs.Server.Messages.{recv, read_message, write_fragment}

-- A message of `n` fragments, as the bytes of these after each other.
pub data Fragmented : ℕ → List ℕ → List ℕ → Type 0 where
  last_fragment :
      (header : FragmentHeader) (chunk : List ℕ)
      → length chunk < 2 ^ 31
      → new (length chunk) true ≡ some header
      → Fragmented 1 chunk (into_xdr_buf header ++ chunk)
  fragment_before :
      (n : ℕ) (header : FragmentHeader) (chunk message bytes : List ℕ)
      → length chunk < 2 ^ 31
      → new (length chunk) false ≡ some header
      → Fragmented n message bytes
      → Fragmented (suc n) (chunk ++ message) ((into_xdr_buf header ++ chunk) ++ bytes)

read_header :
    (h : FragmentHeader) (bytes : List ℕ)
    → read_exact 4 (into_xdr_buf h ++ bytes) ≡ ok (into_xdr_buf h, bytes)
unfolding into_xdr_buf to_be_bytes
read_header h bytes = read_exact-append (to_be_bytes h.header) bytes

recv-fragment :
    (collected chunk rest : List ℕ) (last : Bool) (header : FragmentHeader)
    → length chunk < 2 ^ 31
    → new (length chunk) last ≡ some header
    → recv collected ((into_xdr_buf header ++ chunk) ++ rest)
      ≡ ok ((last, collected ++ chunk), rest)
unfolding recv
recv-fragment collected chunk rest last header l e =
    let (h, f, size, flag) = from_buf-into_xdr_buf (length chunk) last l in
    let same : h ≡ header = some-injective f e in
    let size' : fragment_length (from_buf (into_xdr_buf header)) ≡ length chunk =
      rw (sym same) size in
    let flag' : eof (from_buf (into_xdr_buf header)) ≡ last = rw (sym same) flag in
    rw (
      append_assoc (into_xdr_buf header) chunk rest,
      read_header header (chunk ++ rest),
      size',
      flag',
      read_exact-append chunk rest,
    )

-- A message in fragments, all but the last one marked as not the last, is read back, and what follows
-- it is left, if the reader has as many rounds as there are fragments.
pub read_message-Fragmented :
    (n : ℕ) (message bytes : List ℕ)
    → Fragmented n message bytes
    → (fuel : ℕ) → n ≤ fuel
    → (collected rest : List ℕ)
    → read_message fuel collected (bytes ++ rest) ≡ ok (collected ++ message, rest)
unfolding read_message
read_message-Fragmented n message bytes (last_fragment header chunk l e) zero h collected rest =
    absurd (omega (arith, h))
read_message-Fragmented n message bytes (fragment_before m header chunk message' bytes' l e f) zero
      h collected rest =
    absurd (omega (arith, h))
read_message-Fragmented n message bytes (last_fragment header chunk l e) (suc fuel) h collected
      rest =
    rw (recv-fragment collected chunk rest true header l e)
read_message-Fragmented n message bytes (fragment_before m header chunk message' bytes' l e f)
      (suc fuel) h collected rest =
    rw (
      append_assoc (into_xdr_buf header ++ chunk) bytes' rest,
      recv-fragment collected chunk (bytes' ++ rest) false header l e,
      read_message-Fragmented m message' bytes' f fuel (omega (arith, h)) (collected ++ chunk) rest,
      append_assoc collected chunk message',
    )

-- A message shorter than 2^31 bytes is written without a panic, as one fragment.
pub write_fragment-Fragmented :
    (buf : List ℕ)
    → length buf < 2 ^ 31
    → (out : List ℕ) × (write_fragment buf ≡ some out) × Fragmented 1 buf out
unfolding write_fragment
write_fragment-Fragmented buf l =
    let (h, e, size, flag) = from_buf-into_xdr_buf (length buf) true l in
    let small : length buf % 2 ^ 32 ≡ length buf = omega (arith, l) in
    (into_xdr_buf h ++ buf, rw (lt→ltb _ _ l, small, e), last_fragment h buf l e)

-- A fragment has four bytes at least, so the length of the input is rounds enough.
pub Fragmented-le-length :
    (n : ℕ) (message bytes : List ℕ) → Fragmented n message bytes → n ≤ length bytes
unfolding into_xdr_buf to_be_bytes
Fragmented-le-length n message bytes (last_fragment header chunk l e) = omega arith
Fragmented-le-length n message bytes (fragment_before m header chunk message' bytes' l e f) =
    omega (
      arith,
      length-append (into_xdr_buf header ++ chunk) bytes',
      Fragmented-le-length m message' bytes' f,
    )
