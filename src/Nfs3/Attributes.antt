-- ===== src/Nfs3/Attributes.antt =====
-- The attributes of crates/nfs3_types/src/nfs3.rs and their derived codecs.
use nfs.Prelude.{ℕ, zero, suc, List, [], ◌∷◌, Option, none, some, Result}
use nfs.Xdr.Codec.{Codec, Error}
use nfs.Xdr.Primitives.{u32_codec, u64_codec}
use nfs.Xdr.Derive.{
  no_fields, ◌&◌, struct_codec, simple_enum_codec, Variants, unpack_unit, unpack_with, pack_unit,
  complex_enum_codec,
}

pub data Ftype3 : Type 0 where
  nf3reg : Ftype3
  nf3dir : Ftype3
  nf3blk : Ftype3
  nf3chr : Ftype3
  nf3lnk : Ftype3
  nf3sock : Ftype3
  nf3fifo : Ftype3

abbrev pub ftype3_discriminant : Ftype3 → ℕ
ftype3_discriminant nf3reg = 1
ftype3_discriminant nf3dir = 2
ftype3_discriminant nf3blk = 3
ftype3_discriminant nf3chr = 4
ftype3_discriminant nf3lnk = 5
ftype3_discriminant nf3sock = 6
ftype3_discriminant nf3fifo = 7

abbrev pub ftype3_variants : List Ftype3
ftype3_variants = nf3reg ∷ nf3dir ∷ nf3blk ∷ nf3chr ∷ nf3lnk ∷ nf3sock ∷ nf3fifo ∷ []

unfoldable pub ftype3_codec : Codec Ftype3
ftype3_codec = simple_enum_codec ftype3_discriminant ftype3_variants

pub record Specdata3 : Type 0 where
  pub specdata1 : ℕ
  pub specdata2 : ℕ

unfoldable pub specdata3_codec : Codec Specdata3
specdata3_codec =
    struct_codec (u32_codec & u32_codec & no_fields) (λ s. (s.specdata1, (s.specdata2, tt)))
      (λ f. record { specdata1 = f.0; specdata2 = f.1.0 })

pub record Nfstime3 : Type 0 where
  pub seconds : ℕ
  pub nseconds : ℕ

unfoldable pub nfstime3_codec : Codec Nfstime3
nfstime3_codec =
    struct_codec (u32_codec & u32_codec & no_fields) (λ s. (s.seconds, (s.nseconds, tt)))
      (λ f. record { seconds = f.0; nseconds = f.1.0 })

pub record Fattr3 : Type 0 where
  pub type_ : Ftype3
  pub mode : ℕ
  pub nlink : ℕ
  pub uid : ℕ
  pub gid : ℕ
  pub size : ℕ
  pub used : ℕ
  pub rdev : Specdata3
  pub fsid : ℕ
  pub fileid : ℕ
  pub atime : Nfstime3
  pub mtime : Nfstime3
  pub ctime : Nfstime3

unfoldable pub fattr3_codec : Codec Fattr3
fattr3_codec =
    struct_codec
      (ftype3_codec & u32_codec & u32_codec & u32_codec & u32_codec & u64_codec & u64_codec
        & specdata3_codec & u64_codec & u64_codec & nfstime3_codec & nfstime3_codec & nfstime3_codec
        & no_fields)
      (λ s. (
        s.type_,
        (
          s.mode,
          (
            s.nlink,
            (
              s.uid,
              (
                s.gid,
                (
                  s.size,
                  (s.used, (s.rdev, (s.fsid, (s.fileid, (s.atime, (s.mtime, (s.ctime, tt))))))),
                ),
              ),
            ),
          ),
        ),
      ))
      (λ f. record {
        type_ = f.0;
        mode = f.1.0;
        nlink = f.1.1.0;
        uid = f.1.1.1.0;
        gid = f.1.1.1.1.0;
        size = f.1.1.1.1.1.0;
        used = f.1.1.1.1.1.1.0;
        rdev = f.1.1.1.1.1.1.1.0;
        fsid = f.1.1.1.1.1.1.1.1.0;
        fileid = f.1.1.1.1.1.1.1.1.1.0;
        atime = f.1.1.1.1.1.1.1.1.1.1.0;
        mtime = f.1.1.1.1.1.1.1.1.1.1.1.0;
        ctime = f.1.1.1.1.1.1.1.1.1.1.1.1.0;
      })

-- `Nfs3Option` is the library's `Option`: tag 1 with the value, tag 0 with none.
module _ {T : Type 0} (c : Codec T) where
  unfoldable pub option_value : Option T → ℕ
  option_value (some t) = 1
  option_value none = 0

  unfoldable pub option_size : Option T → ℕ
  option_size (some t) = c.packed_size t
  option_size none = 0

  unfoldable pub pack_option : Option T → List ℕ → Result (ℕ × List ℕ) Error
  pack_option (some t) = c.pack t
  pack_option none = pack_unit

  unfoldable pub unpack_option : ℕ → Option (List ℕ → Result (Option T × ℕ × List ℕ) Error)
  unpack_option (suc zero) = some (unpack_with c some)
  unpack_option zero = some (unpack_unit none)
  unpack_option _ = none

  abbrev pub option_variants : Variants (Option T)
  option_variants = record {
    xdr_value = option_value;
    value_size = option_size;
    pack_value = pack_option;
    unpack_variant = unpack_option;
  }

  unfoldable pub option_codec : Codec (Option T)
  option_codec = complex_enum_codec option_variants

-- `set_atime` and `set_mtime`, which are alike.
pub data SetTime : Type 0 where
  dont_change : SetTime
  set_to_server_time : SetTime
  set_to_client_time : Nfstime3 → SetTime

unfoldable pub set_time_value : SetTime → ℕ
set_time_value dont_change = 0
set_time_value set_to_server_time = 1
set_time_value (set_to_client_time t) = 2

unfoldable pub set_time_size : SetTime → ℕ
set_time_size (set_to_client_time t) = nfstime3_codec.packed_size t
set_time_size _ = 0

unfoldable pub pack_set_time : SetTime → List ℕ → Result (ℕ × List ℕ) Error
pack_set_time (set_to_client_time t) = nfstime3_codec.pack t
pack_set_time _ = pack_unit

unfoldable pub unpack_set_time : ℕ → Option (List ℕ → Result (SetTime × ℕ × List ℕ) Error)
unpack_set_time zero = some (unpack_unit dont_change)
unpack_set_time (suc zero) = some (unpack_unit set_to_server_time)
unpack_set_time (suc (suc zero)) = some (unpack_with nfstime3_codec set_to_client_time)
unpack_set_time _ = none

abbrev pub set_time_variants : Variants SetTime
set_time_variants = record {
  xdr_value = set_time_value;
  value_size = set_time_size;
  pack_value = pack_set_time;
  unpack_variant = unpack_set_time;
}

unfoldable pub set_time_codec : Codec SetTime
set_time_codec = complex_enum_codec set_time_variants

pub record Sattr3 : Type 0 where
  pub mode : Option ℕ
  pub uid : Option ℕ
  pub gid : Option ℕ
  pub size : Option ℕ
  pub atime : SetTime
  pub mtime : SetTime

unfoldable pub sattr3_codec : Codec Sattr3
sattr3_codec =
    struct_codec
      (option_codec u32_codec
        & option_codec u32_codec
        & option_codec u32_codec
        & option_codec u64_codec
        & set_time_codec
        & set_time_codec
        & no_fields)
      (λ s. (s.mode, (s.uid, (s.gid, (s.size, (s.atime, (s.mtime, tt)))))))
      (λ f. record {
        mode = f.0;
        uid = f.1.0;
        gid = f.1.1.0;
        size = f.1.1.1.0;
        atime = f.1.1.1.1.0;
        mtime = f.1.1.1.1.1.0;
      })
