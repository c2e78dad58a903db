-- ===== src/Nfs3/RoundTrip/Results.antt =====
-- The contract `Lawful` for the hand-written codec of `Nfs3Result`.
use nfs.Prelude.{
  false, ℕ, ◌≡◌, ◌≢◌, refl, List, ok, ◌++◌, length, append_assoc, length-append, ◌%◌, ◌+◌, arith,
}
use nfs.Xdr.Codec.{Codec, Lawful}
use nfs.Xdr.Derive.{simple_enum_codec}
use nfs.Nfs3.Status.{
  Nfsstat3, nfs3_ok, is_ok, nfsstat3_codec, Nfs3Result, succeeded, failed, nfs3_result_size,
  pack_nfs3_result, unpack_by_status, unpack_nfs3_result, nfs3_result_codec,
}
use nfs.Nfs3.RoundTrip.{nfsstat3_codec-Lawful}

is_ok-failure : (code : Nfsstat3) → code ≢ nfs3_ok → is_ok code ≡ false
is_ok-failure nfs3_ok h = absurd (h refl)
is_ok-failure code h = ground arith

module _ {T E : Type 0} (t_codec : Codec T) (e_codec : Codec E) (V : T → Type 0) (W : E → Type 0)
    (t_law : Lawful t_codec V) (e_law : Lawful e_codec W) where
  abbrev status_of : Nfs3Result T E → Nfsstat3
  status_of (succeeded val) = nfs3_ok
  status_of (failed code res) = code

  abbrev encode_body : Nfs3Result T E → List ℕ
  encode_body (succeeded val) = t_law.encode val
  encode_body (failed code res) = e_law.encode res

  abbrev encode_result : Nfs3Result T E → List ℕ
  encode_result r = nfsstat3_codec-Lawful.encode (status_of r) ++ encode_body r

  -- A failure does not carry the status of a success.
  abbrev pub IsNfs3Result : Nfs3Result T E → Type 0
  IsNfs3Result (succeeded val) = V val
  IsNfs3Result (failed code res) = (code ≢ nfs3_ok) × W res

  abbrev body_size : Nfs3Result T E → ℕ
  body_size (succeeded val) = t_codec.packed_size val
  body_size (failed code res) = e_codec.packed_size res

  size_lem :
      (r : Nfs3Result T E)
      → nfs3_result_size t_codec e_codec r ≡ nfsstat3_codec.packed_size (status_of r) + body_size r
  unfolding nfs3_result_size
  size_lem (succeeded val) = refl
  size_lem (failed code res) = refl

  body_lem :
      (r : Nfs3Result T E)
      → IsNfs3Result r
      → (length (encode_body r) ≡ body_size r) × (body_size r % 4 ≡ 0)
  body_lem (succeeded val) h = (t_law.length_lem val h, t_law.aligned val h)
  body_lem (failed code res) h = (e_law.length_lem res h.1, e_law.aligned res h.1)

  pack_result_lem :
      (r : Nfs3Result T E) (out : List ℕ)
      → IsNfs3Result r
      → pack_nfs3_result t_codec e_codec r out
        ≡ ok (nfs3_result_size t_codec e_codec r, out ++ encode_result r)
  unfolding pack_nfs3_result nfs3_result_size
  pack_result_lem (succeeded val) out h =
      let e = nfsstat3_codec-Lawful.encode nfs3_ok in
      rw (nfsstat3_codec-Lawful.pack_lem nfs3_ok out tt) (
        rw (t_law.pack_lem val (out ++ e) h)
          (ground (arith, append_assoc out e (t_law.encode val))))
  pack_result_lem (failed code res) out h =
      let e = nfsstat3_codec-Lawful.encode code in
      rw (nfsstat3_codec-Lawful.pack_lem code out tt) (
        rw (e_law.pack_lem res (out ++ e) h.1)
          (ground (arith, append_assoc out e (e_law.encode res))))

  unpack_body_lem :
      (r : Nfs3Result T E) (rest : List ℕ)
      → IsNfs3Result r
      → unpack_by_status t_codec e_codec (status_of r) (encode_body r ++ rest)
        ≡ ok (r, body_size r, rest)
  unfolding unpack_by_status
  unpack_body_lem (succeeded val) rest h = rw (t_law.unpack_lem val rest h)
  unpack_body_lem (failed code res) rest h =
      rw (is_ok-failure code h.0) (rw (e_law.unpack_lem res rest h.1))

  -- The codec of `Nfs3Result` keeps the contract `Lawful` if the codecs of the result and of the
  -- failure do, on failures with another status than NFS3_OK.
  pub nfs3_result_codec-Lawful : Lawful (nfs3_result_codec t_codec e_codec) IsNfs3Result
  unfolding nfs3_result_codec unpack_nfs3_result nfsstat3_codec simple_enum_codec
  nfs3_result_codec-Lawful = record {
    encode = encode_result;
    pack_lem = pack_result_lem;
    length_lem = λ r h. omega (
      arith,
      nfsstat3_codec-Lawful.length_lem (status_of r) tt,
      (body_lem r h).0,
      size_lem r,
      length-append {0} (nfsstat3_codec-Lawful.encode (status_of r)) (encode_body r),
    );
    aligned = λ r h. omega (arith, size_lem r, (body_lem r h).1);
    unpack_lem = λ r rest h.
        rw (append_assoc (nfsstat3_codec-Lawful.encode (status_of r)) (encode_body r) rest) (
          rw (nfsstat3_codec-Lawful.unpack_lem (status_of r) (encode_body r ++ rest) tt)
            (rw (unpack_body_lem r rest h) (ground (arith, size_lem r))));
  }
