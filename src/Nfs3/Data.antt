-- ===== src/Nfs3/Data.antt =====
-- The parts of arguments and results in crates/nfs3_types/src/nfs3.rs that several procedures share.
-- A struct around one field is its field; a verifier is its eight bytes.
use nfs.Prelude.{
  ℕ, zero, suc, ◌+◌, ◌^◌, ◌-◌, Bool, List, [], ◌∷◌, Option, some, none, Result, ok, err, ◌>>=◌,
}
use nfs.Xdr.Codec.{Codec, Error, invalid_enum_value}
use nfs.Xdr.Primitives.{u64_codec, bool_codec, array_codec, unpack_u32}
use nfs.Xdr.Opaque.{opaque_codec}
use nfs.Xdr.Chain.{list_codec}
use nfs.Xdr.Derive.{
  no_fields, ◌&◌, struct_codec, simple_enum_codec, Variants, unpack_with, complex_enum_codec,
}
use nfs.Nfs3.Attributes.{
  Fattr3, fattr3_codec, Ftype3, nf3blk, nf3chr, nf3sock, nf3fifo, ftype3_codec, Nfstime3,
  nfstime3_codec, Sattr3, sattr3_codec, option_codec, Specdata3, specdata3_codec,
}

-- `#[derive(XdrCodec)]` on a struct with one field.
abbrev pub wrapper_codec : {A : Type 0} → Codec A → Codec A
wrapper_codec c = struct_codec (c & no_fields) (λ a. (a, tt)) (λ f. f.0)

unfoldable pub nfs_fh3_codec : Codec (List ℕ)
nfs_fh3_codec = wrapper_codec opaque_codec

unfoldable pub filename3_codec : Codec (List ℕ)
filename3_codec = wrapper_codec opaque_codec

unfoldable pub nfspath3_codec : Codec (List ℕ)
nfspath3_codec = wrapper_codec opaque_codec

unfoldable pub cookieverf3_codec : Codec (List ℕ)
cookieverf3_codec = wrapper_codec (array_codec 8)

unfoldable pub createverf3_codec : Codec (List ℕ)
createverf3_codec = wrapper_codec (array_codec 8)

unfoldable pub writeverf3_codec : Codec (List ℕ)
writeverf3_codec = wrapper_codec (array_codec 8)

pub data StableHow : Type 0 where
  unstable : StableHow
  data_sync : StableHow
  file_sync : StableHow

abbrev pub stable_how_discriminant : StableHow → ℕ
stable_how_discriminant unstable = 0
stable_how_discriminant data_sync = 1
stable_how_discriminant file_sync = 2

abbrev pub stable_how_variants : List StableHow
stable_how_variants = unstable ∷ data_sync ∷ file_sync ∷ []

unfoldable pub stable_how_codec : Codec StableHow
stable_how_codec = simple_enum_codec stable_how_discriminant stable_how_variants

pub data Createhow3 : Type 0 where
  unchecked : Sattr3 → Createhow3
  guarded : Sattr3 → Createhow3
  exclusive : List ℕ → Createhow3

unfoldable pub createhow3_value : Createhow3 → ℕ
createhow3_value (unchecked a) = 0
createhow3_value (guarded a) = 1
createhow3_value (exclusive v) = 2

unfoldable pub createhow3_size : Createhow3 → ℕ
createhow3_size (unchecked a) = sattr3_codec.packed_size a
createhow3_size (guarded a) = sattr3_codec.packed_size a
createhow3_size (exclusive v) = createverf3_codec.packed_size v

unfoldable pub pack_createhow3 : Createhow3 → List ℕ → Result (ℕ × List ℕ) Error
pack_createhow3 (unchecked a) w = sattr3_codec.pack a w
pack_createhow3 (guarded a) w = sattr3_codec.pack a w
pack_createhow3 (exclusive v) w = createverf3_codec.pack v w

unfoldable pub unpack_createhow3 : ℕ → Option (List ℕ → Result (Createhow3 × ℕ × List ℕ) Error)
unpack_createhow3 zero = some (unpack_with sattr3_codec unchecked)
unpack_createhow3 (suc zero) = some (unpack_with sattr3_codec guarded)
unpack_createhow3 (suc (suc zero)) = some (unpack_with createverf3_codec exclusive)
unpack_createhow3 _ = none

abbrev pub createhow3_variants : Variants Createhow3
createhow3_variants = record {
  xdr_value = createhow3_value;
  value_size = createhow3_size;
  pack_value = pack_createhow3;
  unpack_variant = unpack_createhow3;
}

unfoldable pub createhow3_codec : Codec Createhow3
createhow3_codec = complex_enum_codec createhow3_variants

pub record WccAttr : Type 0 where
  pub size : ℕ
  pub mtime : Nfstime3
  pub ctime : Nfstime3

unfoldable pub wcc_attr_codec : Codec WccAttr
wcc_attr_codec =
    struct_codec (u64_codec & nfstime3_codec & nfstime3_codec & no_fields)
      (λ s. (s.size, (s.mtime, (s.ctime, tt))))
      (λ f. record { size = f.0; mtime = f.1.0; ctime = f.1.1.0 })

pub record WccData : Type 0 where
  pub before : Option WccAttr
  pub after : Option Fattr3

unfoldable pub wcc_data_codec : Codec WccData
wcc_data_codec =
    struct_codec ((option_codec wcc_attr_codec) & (option_codec fattr3_codec) & no_fields)
      (λ s. (s.before, (s.after, tt))) (λ f. record { before = f.0; after = f.1.0 })

pub record Diropargs3 : Type 0 where
  pub dir : List ℕ
  pub name : List ℕ

unfoldable pub diropargs3_codec : Codec Diropargs3
diropargs3_codec =
    struct_codec (nfs_fh3_codec & filename3_codec & no_fields) (λ s. (s.dir, (s.name, tt)))
      (λ f. record { dir = f.0; name = f.1.0 })

pub record Symlinkdata3 : Type 0 where
  pub symlink_attributes : Sattr3
  pub symlink_data : List ℕ

unfoldable pub symlinkdata3_codec : Codec Symlinkdata3
symlinkdata3_codec =
    struct_codec (sattr3_codec & nfspath3_codec & no_fields)
      (λ s. (s.symlink_attributes, (s.symlink_data, tt)))
      (λ f. record { symlink_attributes = f.0; symlink_data = f.1.0 })

pub record Entry3 : Type 0 where
  pub fileid : ℕ
  pub name : List ℕ
  pub cookie : ℕ

unfoldable pub entry3_codec : Codec Entry3
entry3_codec =
    struct_codec (u64_codec & filename3_codec & u64_codec & no_fields)
      (λ s. (s.fileid, (s.name, (s.cookie, tt))))
      (λ f. record { fileid = f.0; name = f.1.0; cookie = f.1.1.0 })

pub record Entryplus3 : Type 0 where
  pub fileid : ℕ
  pub name : List ℕ
  pub cookie : ℕ
  pub name_attributes : Option Fattr3
  pub name_handle : Option (List ℕ)

unfoldable pub entryplus3_codec : Codec Entryplus3
entryplus3_codec =
    struct_codec
      (u64_codec
        & filename3_codec
        & u64_codec
        & (option_codec fattr3_codec)
        & (option_codec nfs_fh3_codec)
        & no_fields)
      (λ s. (s.fileid, (s.name, (s.cookie, (s.name_attributes, (s.name_handle, tt))))))
      (λ f. record {
        fileid = f.0;
        name = f.1.0;
        cookie = f.1.1.0;
        name_attributes = f.1.1.1.0;
        name_handle = f.1.1.1.1.0;
      })

pub record Dirlist3 : Type 0 where
  pub entries : List Entry3
  pub eof : Bool

unfoldable pub dirlist3_codec : Codec Dirlist3
dirlist3_codec =
    struct_codec ((list_codec entry3_codec) & bool_codec & no_fields)
      (λ s. (s.entries, (s.eof, tt))) (λ f. record { entries = f.0; eof = f.1.0 })

pub record Dirlistplus3 : Type 0 where
  pub entries : List Entryplus3
  pub eof : Bool

unfoldable pub dirlistplus3_codec : Codec Dirlistplus3
dirlistplus3_codec =
    struct_codec ((list_codec entryplus3_codec) & bool_codec & no_fields)
      (λ s. (s.entries, (s.eof, tt))) (λ f. record { entries = f.0; eof = f.1.0 })

pub record Devicedata3 : Type 0 where
  pub dev_attributes : Sattr3
  pub spec : Specdata3

unfoldable pub devicedata3_codec : Codec Devicedata3
devicedata3_codec =
    struct_codec (sattr3_codec & specdata3_codec & no_fields)
      (λ s. (s.dev_attributes, (s.spec, tt))) (λ f. record { dev_attributes = f.0; spec = f.1.0 })

pub data Mknoddata3 : Type 0 where
  chr : Devicedata3 → Mknoddata3
  blk : Devicedata3 → Mknoddata3
  sock : Sattr3 → Mknoddata3
  fifo : Sattr3 → Mknoddata3
  default : Mknoddata3

unfoldable pub mknoddata3_size : Mknoddata3 → ℕ
mknoddata3_size (chr val) = 4 + devicedata3_codec.packed_size val
mknoddata3_size (blk val) = 4 + devicedata3_codec.packed_size val
mknoddata3_size (sock val) = 4 + sattr3_codec.packed_size val
mknoddata3_size (fifo val) = 4 + sattr3_codec.packed_size val
mknoddata3_size default = 4 + 0

-- The type and the value behind it, and the sum of their lengths.
abbrev pub pack_typed : {A : Type 0} → Ftype3 → Codec A → A → List ℕ → Result (ℕ × List ℕ) Error
pack_typed t c val w = do (n, w') ← ftype3_codec.pack t w; (m, w'') ← c.pack val w'; ok (n + m, w'')

unfoldable pub pack_mknoddata3 : Mknoddata3 → List ℕ → Result (ℕ × List ℕ) Error
pack_mknoddata3 (chr val) w = pack_typed nf3chr devicedata3_codec val w
pack_mknoddata3 (blk val) w = pack_typed nf3blk devicedata3_codec val w
pack_mknoddata3 (sock val) w = pack_typed nf3sock sattr3_codec val w
pack_mknoddata3 (fifo val) w = pack_typed nf3fifo sattr3_codec val w
pack_mknoddata3 default w = err (invalid_enum_value (2 ^ 32 - 1))

-- The `match v` of `unpack`.
unfoldable pub unpack_by_type : ℕ → List ℕ → Result (Mknoddata3 × ℕ × List ℕ) Error
unpack_by_type (suc (suc (suc zero))) = unpack_with devicedata3_codec blk
unpack_by_type (suc (suc (suc (suc zero)))) = unpack_with devicedata3_codec chr
unpack_by_type (suc (suc (suc (suc (suc (suc zero)))))) = unpack_with sattr3_codec sock
unpack_by_type (suc (suc (suc (suc (suc (suc (suc zero))))))) = unpack_with sattr3_codec fifo
unpack_by_type _ = λ input. ok (default, 0, input)

unfoldable pub mknoddata3_codec : Codec Mknoddata3
mknoddata3_codec = record {
  packed_size = mknoddata3_size;
  pack = pack_mknoddata3;
  unpack = λ input. do
    (v, sz, input') ← unpack_u32 input
    (val, fsz, rest) ← unpack_by_type v input'
    ok (val, sz + fsz, rest);
}
