-- ===== src/Nfs3/Resok.antt =====
-- What the procedures of crates/nfs3_types/src/nfs3.rs return when they succeed, with the derived codecs.
mod System
mod Listing
use nfs.Prelude.{ℕ, Bool, List, Option}
use nfs.Xdr.Codec.{Codec}
use nfs.Xdr.Primitives.{u32_codec, u64_codec, bool_codec}
use nfs.Xdr.Opaque.{opaque_codec}
use nfs.Xdr.Derive.{no_fields, ◌&◌, struct_codec}
use nfs.Nfs3.Attributes.{Fattr3, fattr3_codec, Nfstime3, nfstime3_codec, option_codec}
use nfs.Nfs3.Data.{
  nfs_fh3_codec, nfspath3_codec, cookieverf3_codec, writeverf3_codec, WccData, wcc_data_codec,
  StableHow, stable_how_codec, Dirlist3, dirlist3_codec, Dirlistplus3, dirlistplus3_codec,
}
pub use nfs.Nfs3.Resok.System.{Fsinfo3resok, Fsstat3resok, Pathconf3resok}
unfoldable pub use nfs.Nfs3.Resok.System.{
  fsinfo3resok_codec, fsstat3resok_codec, pathconf3resok_codec,
}
pub use nfs.Nfs3.Resok.Listing.{Readdir3resok, Readdirplus3resok}
unfoldable pub use nfs.Nfs3.Resok.Listing.{readdir3resok_codec, readdirplus3resok_codec}

pub record Access3resok : Type 0 where
  pub obj_attributes : Option Fattr3
  pub access : ℕ

unfoldable pub access3resok_codec : Codec Access3resok
access3resok_codec =
    struct_codec ((option_codec fattr3_codec) & u32_codec & no_fields)
      (λ s. (s.obj_attributes, (s.access, tt)))
      (λ f. record { obj_attributes = f.0; access = f.1.0 })

pub record Commit3resok : Type 0 where
  pub file_wcc : WccData
  pub verf : List ℕ

unfoldable pub commit3resok_codec : Codec Commit3resok
commit3resok_codec =
    struct_codec (wcc_data_codec & writeverf3_codec & no_fields) (λ s. (s.file_wcc, (s.verf, tt)))
      (λ f. record { file_wcc = f.0; verf = f.1.0 })

pub record Create3resok : Type 0 where
  pub obj : Option (List ℕ)
  pub obj_attributes : Option Fattr3
  pub dir_wcc : WccData

unfoldable pub create3resok_codec : Codec Create3resok
create3resok_codec =
    struct_codec
      ((option_codec nfs_fh3_codec) & (option_codec fattr3_codec) & wcc_data_codec & no_fields)
      (λ s. (s.obj, (s.obj_attributes, (s.dir_wcc, tt))))
      (λ f. record { obj = f.0; obj_attributes = f.1.0; dir_wcc = f.1.1.0 })

pub record Getattr3resok : Type 0 where
  pub obj_attributes : Fattr3

unfoldable pub getattr3resok_codec : Codec Getattr3resok
getattr3resok_codec =
    struct_codec (fattr3_codec & no_fields) (λ s. (s.obj_attributes, tt))
      (λ f. record { obj_attributes = f.0 })

pub record Link3resok : Type 0 where
  pub file_attributes : Option Fattr3
  pub linkdir_wcc : WccData

unfoldable pub link3resok_codec : Codec Link3resok
link3resok_codec =
    struct_codec ((option_codec fattr3_codec) & wcc_data_codec & no_fields)
      (λ s. (s.file_attributes, (s.linkdir_wcc, tt)))
      (λ f. record { file_attributes = f.0; linkdir_wcc = f.1.0 })

pub record Lookup3resok : Type 0 where
  pub object : List ℕ
  pub obj_attributes : Option Fattr3
  pub dir_attributes : Option Fattr3

unfoldable pub lookup3resok_codec : Codec Lookup3resok
lookup3resok_codec =
    struct_codec
      (nfs_fh3_codec & (option_codec fattr3_codec) & (option_codec fattr3_codec) & no_fields)
      (λ s. (s.object, (s.obj_attributes, (s.dir_attributes, tt))))
      (λ f. record { object = f.0; obj_attributes = f.1.0; dir_attributes = f.1.1.0 })

pub record Mkdir3resok : Type 0 where
  pub obj : Option (List ℕ)
  pub obj_attributes : Option Fattr3
  pub dir_wcc : WccData

unfoldable pub mkdir3resok_codec : Codec Mkdir3resok
mkdir3resok_codec =
    struct_codec
      ((option_codec nfs_fh3_codec) & (option_codec fattr3_codec) & wcc_data_codec & no_fields)
      (λ s. (s.obj, (s.obj_attributes, (s.dir_wcc, tt))))
      (λ f. record { obj = f.0; obj_attributes = f.1.0; dir_wcc = f.1.1.0 })

pub record Mknod3resok : Type 0 where
  pub obj : Option (List ℕ)
  pub obj_attributes : Option Fattr3
  pub dir_wcc : WccData

unfoldable pub mknod3resok_codec : Codec Mknod3resok
mknod3resok_codec =
    struct_codec
      ((option_codec nfs_fh3_codec) & (option_codec fattr3_codec) & wcc_data_codec & no_fields)
      (λ s. (s.obj, (s.obj_attributes, (s.dir_wcc, tt))))
      (λ f. record { obj = f.0; obj_attributes = f.1.0; dir_wcc = f.1.1.0 })

pub record Read3resok : Type 0 where
  pub file_attributes : Option Fattr3
  pub count : ℕ
  pub eof : Bool
  pub bytes : List ℕ

unfoldable pub read3resok_codec : Codec Read3resok
read3resok_codec =
    struct_codec ((option_codec fattr3_codec) & u32_codec & bool_codec & opaque_codec & no_fields)
      (λ s. (s.file_attributes, (s.count, (s.eof, (s.bytes, tt)))))
      (λ f. record { file_attributes = f.0; count = f.1.0; eof = f.1.1.0; bytes = f.1.1.1.0 })

pub record Readlink3resok : Type 0 where
  pub symlink_attributes : Option Fattr3
  pub bytes : List ℕ

unfoldable pub readlink3resok_codec : Codec Readlink3resok
readlink3resok_codec =
    struct_codec ((option_codec fattr3_codec) & nfspath3_codec & no_fields)
      (λ s. (s.symlink_attributes, (s.bytes, tt)))
      (λ f. record { symlink_attributes = f.0; bytes = f.1.0 })

pub record Remove3resok : Type 0 where
  pub dir_wcc : WccData

unfoldable pub remove3resok_codec : Codec Remove3resok
remove3resok_codec =
    struct_codec (wcc_data_codec & no_fields) (λ s. (s.dir_wcc, tt)) (λ f. record { dir_wcc = f.0 })

pub record Rename3resok : Type 0 where
  pub fromdir_wcc : WccData
  pub todir_wcc : WccData

unfoldable pub rename3resok_codec : Codec Rename3resok
rename3resok_codec =
    struct_codec (wcc_data_codec & wcc_data_codec & no_fields)
      (λ s. (s.fromdir_wcc, (s.todir_wcc, tt)))
      (λ f. record { fromdir_wcc = f.0; todir_wcc = f.1.0 })

pub record Rmdir3resok : Type 0 where
  pub dir_wcc : WccData

unfoldable pub rmdir3resok_codec : Codec Rmdir3resok
rmdir3resok_codec =
    struct_codec (wcc_data_codec & no_fields) (λ s. (s.dir_wcc, tt)) (λ f. record { dir_wcc = f.0 })

pub record Setattr3resok : Type 0 where
  pub obj_wcc : WccData

unfoldable pub setattr3resok_codec : Codec Setattr3resok
setattr3resok_codec =
    struct_codec (wcc_data_codec & no_fields) (λ s. (s.obj_wcc, tt)) (λ f. record { obj_wcc = f.0 })

pub record Symlink3resok : Type 0 where
  pub obj : Option (List ℕ)
  pub obj_attributes : Option Fattr3
  pub dir_wcc : WccData

unfoldable pub symlink3resok_codec : Codec Symlink3resok
symlink3resok_codec =
    struct_codec
      ((option_codec nfs_fh3_codec) & (option_codec fattr3_codec) & wcc_data_codec & no_fields)
      (λ s. (s.obj, (s.obj_attributes, (s.dir_wcc, tt))))
      (λ f. record { obj = f.0; obj_attributes = f.1.0; dir_wcc = f.1.1.0 })

pub record Write3resok : Type 0 where
  pub file_wcc : WccData
  pub count : ℕ
  pub committed : StableHow
  pub verf : List ℕ

unfoldable pub write3resok_codec : Codec Write3resok
write3resok_codec =
    struct_codec (wcc_data_codec & u32_codec & stable_how_codec & writeverf3_codec & no_fields)
      (λ s. (s.file_wcc, (s.count, (s.committed, (s.verf, tt)))))
      (λ f. record { file_wcc = f.0; count = f.1.0; committed = f.1.1.0; verf = f.1.1.1.0 })
