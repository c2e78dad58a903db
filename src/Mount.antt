-- ===== src/Mount.antt =====
-- The types of the mount protocol, crates/nfs3_types/src/mount.rs, with their codecs.
use nfs.Prelude.{ℕ, ◌+◌, Option, List, [], ◌∷◌, Result, ok, ◌>>=◌}
use nfs.Xdr.Codec.{Codec, Error}
use nfs.Xdr.Primitives.{vec_u32_codec}
use nfs.Xdr.Opaque.{opaque_codec}
use nfs.Xdr.Chain.{list_codec}
use nfs.Xdr.Derive.{no_fields, ◌&◌, struct_codec, simple_enum_codec, find_variant}
use nfs.Nfs3.Data.{wrapper_codec}

unfoldable pub fhandle3_codec : Codec (List ℕ)
fhandle3_codec = wrapper_codec opaque_codec

unfoldable pub dirpath_codec : Codec (List ℕ)
dirpath_codec = wrapper_codec opaque_codec

unfoldable pub name_codec : Codec (List ℕ)
name_codec = wrapper_codec opaque_codec

pub data Mountstat3 : Type 0 where
  mnt3_ok : Mountstat3
  mnt3err_perm : Mountstat3
  mnt3err_noent : Mountstat3
  mnt3err_io : Mountstat3
  mnt3err_acces : Mountstat3
  mnt3err_notdir : Mountstat3
  mnt3err_inval : Mountstat3
  mnt3err_nametoolong : Mountstat3
  mnt3err_notsupp : Mountstat3
  mnt3err_serverfault : Mountstat3

abbrev pub mountstat3_discriminant : Mountstat3 → ℕ
mountstat3_discriminant mnt3_ok = 0
mountstat3_discriminant mnt3err_perm = 1
mountstat3_discriminant mnt3err_noent = 2
mountstat3_discriminant mnt3err_io = 5
mountstat3_discriminant mnt3err_acces = 13
mountstat3_discriminant mnt3err_notdir = 20
mountstat3_discriminant mnt3err_inval = 22
mountstat3_discriminant mnt3err_nametoolong = 63
mountstat3_discriminant mnt3err_notsupp = 10004
mountstat3_discriminant mnt3err_serverfault = 10006

abbrev pub mountstat3_variants : List Mountstat3
mountstat3_variants =
    mnt3_ok ∷ mnt3err_perm ∷ mnt3err_noent ∷ mnt3err_io ∷ mnt3err_acces ∷ mnt3err_notdir
    ∷ mnt3err_inval ∷ mnt3err_nametoolong ∷ mnt3err_notsupp ∷ mnt3err_serverfault ∷ []

unfoldable pub mountstat3_codec : Codec Mountstat3
mountstat3_codec = simple_enum_codec mountstat3_discriminant mountstat3_variants

pub record Mountres3ok : Type 0 where
  pub fhandle : List ℕ
  pub auth_flavors : List ℕ

unfoldable pub mountres3ok_codec : Codec Mountres3ok
mountres3ok_codec =
    struct_codec (fhandle3_codec & vec_u32_codec & no_fields)
      (λ s. (s.fhandle, (s.auth_flavors, tt))) (λ f. record { fhandle = f.0; auth_flavors = f.1.0 })

pub data Mountres3 : Type 0 where
  mounted : Mountres3ok → Mountres3
  refused : Mountstat3 → Mountres3

unfoldable pub mountres3_size : Mountres3 → ℕ
mountres3_size (mounted m) = mountstat3_codec.packed_size mnt3_ok + mountres3ok_codec.packed_size m
mountres3_size (refused e) = mountstat3_codec.packed_size e

unfoldable pub pack_mountres3 : Mountres3 → List ℕ → Result (ℕ × List ℕ) Error
pack_mountres3 (mounted m) w = do
  (len, w') ← mountstat3_codec.pack mnt3_ok w
  (ok_len, w'') ← mountres3ok_codec.pack m w'
  ok (len + ok_len, w'')
pack_mountres3 (refused e) w = mountstat3_codec.pack e w

-- The `match stat` of `unpack`.
unfoldable pub unpack_by_stat : Mountstat3 → List ℕ → Result (Mountres3 × ℕ × List ℕ) Error
unpack_by_stat mnt3_ok r = do (m, len, rest) ← mountres3ok_codec.unpack r; ok (mounted m, len, rest)
unpack_by_stat stat r = ok (refused stat, 0, r)

unfoldable pub mountres3_codec : Codec Mountres3
mountres3_codec = record {
  packed_size = mountres3_size;
  pack = pack_mountres3;
  unpack = λ input. do
    (stat, len, r) ← mountstat3_codec.unpack input
    (res, res_len, rest) ← unpack_by_stat stat r
    ok (res, len + res_len, rest);
}

pub record Mountbody : Type 0 where
  pub ml_hostname : List ℕ
  pub ml_directory : List ℕ

unfoldable pub mountbody_codec : Codec Mountbody
mountbody_codec =
    struct_codec (name_codec & dirpath_codec & no_fields)
      (λ s. (s.ml_hostname, (s.ml_directory, tt)))
      (λ f. record { ml_hostname = f.0; ml_directory = f.1.0 })

pub record ExportNode : Type 0 where
  pub ex_dir : List ℕ
  pub ex_groups : List (List ℕ)

unfoldable pub export_node_codec : Codec ExportNode
export_node_codec =
    struct_codec (dirpath_codec & list_codec name_codec & no_fields)
      (λ s. (s.ex_dir, (s.ex_groups, tt))) (λ f. record { ex_dir = f.0; ex_groups = f.1.0 })

pub data MountProgram : Type 0 where
  mountproc3_null : MountProgram
  mountproc3_mnt : MountProgram
  mountproc3_dump : MountProgram
  mountproc3_umnt : MountProgram
  mountproc3_umntall : MountProgram
  mountproc3_export : MountProgram

abbrev pub mount_program_number : MountProgram → ℕ
mount_program_number mountproc3_null = 0
mount_program_number mountproc3_mnt = 1
mount_program_number mountproc3_dump = 2
mount_program_number mountproc3_umnt = 3
mount_program_number mountproc3_umntall = 4
mount_program_number mountproc3_export = 5

abbrev pub mount_programs : List MountProgram
mount_programs =
    mountproc3_null ∷ mountproc3_mnt ∷ mountproc3_dump ∷ mountproc3_umnt ∷ mountproc3_umntall
    ∷ mountproc3_export ∷ []

-- `MOUNT_PROGRAM::try_from`
unfoldable pub mount_program_try_from : ℕ → Option MountProgram
unfolding find_variant
mount_program_try_from value = find_variant mount_program_number mount_programs value
