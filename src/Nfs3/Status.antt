-- ===== src/Nfs3/Status.antt =====
-- `nfsstat3` and `Nfs3Result` of crates/nfs3_types/src/nfs3.rs.
use nfs.Prelude.{Bool, true, false, if◌then◌else◌, ℕ, ◌+◌, List, [], ◌∷◌, Result, ok, ◌>>=◌}
use nfs.Xdr.Codec.{Codec, Error}
use nfs.Xdr.Derive.{simple_enum_codec}

pub data Nfsstat3 : Type 0 where
  nfs3_ok : Nfsstat3
  nfs3err_perm : Nfsstat3
  nfs3err_noent : Nfsstat3
  nfs3err_io : Nfsstat3
  nfs3err_nxio : Nfsstat3
  nfs3err_acces : Nfsstat3
  nfs3err_exist : Nfsstat3
  nfs3err_xdev : Nfsstat3
  nfs3err_nodev : Nfsstat3
  nfs3err_notdir : Nfsstat3
  nfs3err_isdir : Nfsstat3
  nfs3err_inval : Nfsstat3
  nfs3err_fbig : Nfsstat3
  nfs3err_nospc : Nfsstat3
  nfs3err_rofs : Nfsstat3
  nfs3err_mlink : Nfsstat3
  nfs3err_nametoolong : Nfsstat3
  nfs3err_notempty : Nfsstat3
  nfs3err_dquot : Nfsstat3
  nfs3err_stale : Nfsstat3
  nfs3err_remote : Nfsstat3
  nfs3err_badhandle : Nfsstat3
  nfs3err_not_sync : Nfsstat3
  nfs3err_bad_cookie : Nfsstat3
  nfs3err_notsupp : Nfsstat3
  nfs3err_toosmall : Nfsstat3
  nfs3err_serverfault : Nfsstat3
  nfs3err_badtype : Nfsstat3
  nfs3err_jukebox : Nfsstat3

abbrev pub nfsstat3_discriminant : Nfsstat3 → ℕ
nfsstat3_discriminant nfs3_ok = 0
nfsstat3_discriminant nfs3err_perm = 1
nfsstat3_discriminant nfs3err_noent = 2
nfsstat3_discriminant nfs3err_io = 5
nfsstat3_discriminant nfs3err_nxio = 6
nfsstat3_discriminant nfs3err_acces = 13
nfsstat3_discriminant nfs3err_exist = 17
nfsstat3_discriminant nfs3err_xdev = 18
nfsstat3_discriminant nfs3err_nodev = 19
nfsstat3_discriminant nfs3err_notdir = 20
nfsstat3_discriminant nfs3err_isdir = 21
nfsstat3_discriminant nfs3err_inval = 22
nfsstat3_discriminant nfs3err_fbig = 27
nfsstat3_discriminant nfs3err_nospc = 28
nfsstat3_discriminant nfs3err_rofs = 30
nfsstat3_discriminant nfs3err_mlink = 31
nfsstat3_discriminant nfs3err_nametoolong = 63
nfsstat3_discriminant nfs3err_notempty = 66
nfsstat3_discriminant nfs3err_dquot = 69
nfsstat3_discriminant nfs3err_stale = 70
nfsstat3_discriminant nfs3err_remote = 71
nfsstat3_discriminant nfs3err_badhandle = 10001
nfsstat3_discriminant nfs3err_not_sync = 10002
nfsstat3_discriminant nfs3err_bad_cookie = 10003
nfsstat3_discriminant nfs3err_notsupp = 10004
nfsstat3_discriminant nfs3err_toosmall = 10005
nfsstat3_discriminant nfs3err_serverfault = 10006
nfsstat3_discriminant nfs3err_badtype = 10007
nfsstat3_discriminant nfs3err_jukebox = 10008

abbrev pub nfsstat3_variants : List Nfsstat3
nfsstat3_variants =
    nfs3_ok ∷ nfs3err_perm ∷ nfs3err_noent ∷ nfs3err_io ∷ nfs3err_nxio ∷ nfs3err_acces
    ∷ nfs3err_exist ∷ nfs3err_xdev ∷ nfs3err_nodev ∷ nfs3err_notdir ∷ nfs3err_isdir ∷ nfs3err_inval
    ∷ nfs3err_fbig ∷ nfs3err_nospc ∷ nfs3err_rofs ∷ nfs3err_mlink ∷ nfs3err_nametoolong
    ∷ nfs3err_notempty ∷ nfs3err_dquot ∷ nfs3err_stale ∷ nfs3err_remote ∷ nfs3err_badhandle
    ∷ nfs3err_not_sync ∷ nfs3err_bad_cookie ∷ nfs3err_notsupp ∷ nfs3err_toosmall
    ∷ nfs3err_serverfault ∷ nfs3err_badtype ∷ nfs3err_jukebox ∷ []

unfoldable pub nfsstat3_codec : Codec Nfsstat3
nfsstat3_codec = simple_enum_codec nfsstat3_discriminant nfsstat3_variants

-- `code == NFS3_OK`
abbrev pub is_ok : Nfsstat3 → Bool
is_ok nfs3_ok = true
is_ok _ = false

-- The reply of a procedure: its result, or a status with the data of a failure.
pub data Nfs3Result (T E : Type 0) : Type 0 where
  succeeded : T → Nfs3Result T E
  failed : Nfsstat3 → E → Nfs3Result T E

module _ {T E : Type 0} (t_codec : Codec T) (e_codec : Codec E) where
  unfoldable pub nfs3_result_size : Nfs3Result T E → ℕ
  nfs3_result_size (succeeded val) = nfsstat3_codec.packed_size nfs3_ok + t_codec.packed_size val
  nfs3_result_size (failed code res) = nfsstat3_codec.packed_size code + e_codec.packed_size res

  unfoldable pub pack_nfs3_result : Nfs3Result T E → List ℕ → Result (ℕ × List ℕ) Error
  pack_nfs3_result (succeeded val) out = do
    (code_bytes, out') ← nfsstat3_codec.pack nfs3_ok out
    (val_bytes, out'') ← t_codec.pack val out'
    ok (code_bytes + val_bytes, out'')
  pack_nfs3_result (failed code res) out = do
    (code_bytes, out') ← nfsstat3_codec.pack code out
    (res_bytes, out'') ← e_codec.pack res out'
    ok (code_bytes + res_bytes, out'')

  -- The `if` of `unpack`.
  unfoldable pub unpack_by_status : Nfsstat3 → List ℕ → Result (Nfs3Result T E × ℕ × List ℕ) Error
  unpack_by_status code input =
      if is_ok code
      then (do (val, val_bytes, rest) ← t_codec.unpack input; ok (succeeded val, val_bytes, rest))
      else (do (res, res_bytes, rest) ← e_codec.unpack input; ok (failed code res, res_bytes, rest))

  unfoldable pub unpack_nfs3_result : List ℕ → Result (Nfs3Result T E × ℕ × List ℕ) Error
  unpack_nfs3_result input = do
    (code, code_bytes, input') ← nfsstat3_codec.unpack input
    (result, bytes, rest) ← unpack_by_status code input'
    ok (result, code_bytes + bytes, rest)

  unfoldable pub nfs3_result_codec : Codec (Nfs3Result T E)
  nfs3_result_codec = record {
    packed_size = nfs3_result_size;
    pack = pack_nfs3_result;
    unpack = unpack_nfs3_result;
  }
