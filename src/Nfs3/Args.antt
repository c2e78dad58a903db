-- ===== src/Nfs3/Args.antt =====
-- The arguments of the procedures in crates/nfs3_types/src/nfs3.rs, with their derived codecs.
use nfs.Prelude.{ℕ, List, Option}
use nfs.Xdr.Codec.{Codec}
use nfs.Xdr.Primitives.{u32_codec, u64_codec}
use nfs.Xdr.Opaque.{opaque_codec}
use nfs.Xdr.Derive.{no_fields, ◌&◌, struct_codec}
use nfs.Nfs3.Attributes.{Nfstime3, nfstime3_codec, Sattr3, sattr3_codec, option_codec}
use nfs.Nfs3.Data.{
  nfs_fh3_codec, cookieverf3_codec, StableHow, stable_how_codec, Createhow3, createhow3_codec,
  Diropargs3, diropargs3_codec, Symlinkdata3, symlinkdata3_codec, Mknoddata3, mknoddata3_codec,
}

pub record Access3args : Type 0 where
  pub object : List ℕ
  pub access : ℕ

unfoldable pub access3args_codec : Codec Access3args
access3args_codec =
    struct_codec (nfs_fh3_codec & u32_codec & no_fields) (λ s. (s.object, (s.access, tt)))
      (λ f. record { object = f.0; access = f.1.0 })

pub record Commit3args : Type 0 where
  pub file : List ℕ
  pub offset : ℕ
  pub count : ℕ

unfoldable pub commit3args_codec : Codec Commit3args
commit3args_codec =
    struct_codec (nfs_fh3_codec & u64_codec & u32_codec & no_fields)
      (λ s. (s.file, (s.offset, (s.count, tt))))
      (λ f. record { file = f.0; offset = f.1.0; count = f.1.1.0 })

pub record Create3args : Type 0 where
  pub where_ : Diropargs3
  pub how : Createhow3

unfoldable pub create3args_codec : Codec Create3args
create3args_codec =
    struct_codec (diropargs3_codec & createhow3_codec & no_fields) (λ s. (s.where_, (s.how, tt)))
      (λ f. record { where_ = f.0; how = f.1.0 })

pub record Fsinfo3args : Type 0 where
  pub fsroot : List ℕ

unfoldable pub fsinfo3args_codec : Codec Fsinfo3args
fsinfo3args_codec =
    struct_codec (nfs_fh3_codec & no_fields) (λ s. (s.fsroot, tt)) (λ f. record { fsroot = f.0 })

pub record Fsstat3args : Type 0 where
  pub fsroot : List ℕ

unfoldable pub fsstat3args_codec : Codec Fsstat3args
fsstat3args_codec =
    struct_codec (nfs_fh3_codec & no_fields) (λ s. (s.fsroot, tt)) (λ f. record { fsroot = f.0 })

pub record Getattr3args : Type 0 where
  pub object : List ℕ

unfoldable pub getattr3args_codec : Codec Getattr3args
getattr3args_codec =
    struct_codec (nfs_fh3_codec & no_fields) (λ s. (s.object, tt)) (λ f. record { object = f.0 })

pub record Link3args : Type 0 where
  pub file : List ℕ
  pub link : Diropargs3

unfoldable pub link3args_codec : Codec Link3args
link3args_codec =
    struct_codec (nfs_fh3_codec & diropargs3_codec & no_fields) (λ s. (s.file, (s.link, tt)))
      (λ f. record { file = f.0; link = f.1.0 })

pub record Lookup3args : Type 0 where
  pub what : Diropargs3

unfoldable pub lookup3args_codec : Codec Lookup3args
lookup3args_codec =
    struct_codec (diropargs3_codec & no_fields) (λ s. (s.what, tt)) (λ f. record { what = f.0 })

pub record Mkdir3args : Type 0 where
  pub where_ : Diropargs3
  pub attributes : Sattr3

unfoldable pub mkdir3args_codec : Codec Mkdir3args
mkdir3args_codec =
    struct_codec (diropargs3_codec & sattr3_codec & no_fields) (λ s. (s.where_, (s.attributes, tt)))
      (λ f. record { where_ = f.0; attributes = f.1.0 })

pub record Mknod3args : Type 0 where
  pub where_ : Diropargs3
  pub what : Mknoddata3

unfoldable pub mknod3args_codec : Codec Mknod3args
mknod3args_codec =
    struct_codec (diropargs3_codec & mknoddata3_codec & no_fields) (λ s. (s.where_, (s.what, tt)))
      (λ f. record { where_ = f.0; what = f.1.0 })

pub record Pathconf3args : Type 0 where
  pub object : List ℕ

unfoldable pub pathconf3args_codec : Codec Pathconf3args
pathconf3args_codec =
    struct_codec (nfs_fh3_codec & no_fields) (λ s. (s.object, tt)) (λ f. record { object = f.0 })

pub record Read3args : Type 0 where
  pub file : List ℕ
  pub offset : ℕ
  pub count : ℕ

unfoldable pub read3args_codec : Codec Read3args
read3args_codec =
    struct_codec (nfs_fh3_codec & u64_codec & u32_codec & no_fields)
      (λ s. (s.file, (s.offset, (s.count, tt))))
      (λ f. record { file = f.0; offset = f.1.0; count = f.1.1.0 })

pub record Readdir3args : Type 0 where
  pub dir : List ℕ
  pub cookie : ℕ
  pub cookieverf : List ℕ
  pub count : ℕ

unfoldable pub readdir3args_codec : Codec Readdir3args
readdir3args_codec =
    struct_codec (nfs_fh3_codec & u64_codec & cookieverf3_codec & u32_codec & no_fields)
      (λ s. (s.dir, (s.cookie, (s.cookieverf, (s.count, tt)))))
      (λ f. record { dir = f.0; cookie = f.1.0; cookieverf = f.1.1.0; count = f.1.1.1.0 })

pub record Readdirplus3args : Type 0 where
  pub dir : List ℕ
  pub cookie : ℕ
  pub cookieverf : List ℕ
  pub dircount : ℕ
  pub maxcount : ℕ

unfoldable pub readdirplus3args_codec : Codec Readdirplus3args
readdirplus3args_codec =
    struct_codec (nfs_fh3_codec & u64_codec & cookieverf3_codec & u32_codec & u32_codec & no_fields)
      (λ s. (s.dir, (s.cookie, (s.cookieverf, (s.dircount, (s.maxcount, tt))))))
      (λ f. record {
        dir = f.0;
        cookie = f.1.0;
        cookieverf = f.1.1.0;
        dircount = f.1.1.1.0;
        maxcount = f.1.1.1.1.0;
      })

pub record Readlink3args : Type 0 where
  pub symlink : List ℕ

unfoldable pub readlink3args_codec : Codec Readlink3args
readlink3args_codec =
    struct_codec (nfs_fh3_codec & no_fields) (λ s. (s.symlink, tt)) (λ f. record { symlink = f.0 })

pub record Remove3args : Type 0 where
  pub object : Diropargs3

unfoldable pub remove3args_codec : Codec Remove3args
remove3args_codec =
    struct_codec (diropargs3_codec & no_fields) (λ s. (s.object, tt)) (λ f. record { object = f.0 })

pub record Rename3args : Type 0 where
  pub from : Diropargs3
  pub to : Diropargs3

unfoldable pub rename3args_codec : Codec Rename3args
rename3args_codec =
    struct_codec (diropargs3_codec & diropargs3_codec & no_fields) (λ s. (s.from, (s.to, tt)))
      (λ f. record { from = f.0; to = f.1.0 })

pub record Rmdir3args : Type 0 where
  pub object : Diropargs3

unfoldable pub rmdir3args_codec : Codec Rmdir3args
rmdir3args_codec =
    struct_codec (diropargs3_codec & no_fields) (λ s. (s.object, tt)) (λ f. record { object = f.0 })

pub record Setattr3args : Type 0 where
  pub object : List ℕ
  pub new_attributes : Sattr3
  pub guard : Option Nfstime3

unfoldable pub setattr3args_codec : Codec Setattr3args
setattr3args_codec =
    struct_codec (nfs_fh3_codec & sattr3_codec & (option_codec nfstime3_codec) & no_fields)
      (λ s. (s.object, (s.new_attributes, (s.guard, tt))))
      (λ f. record { object = f.0; new_attributes = f.1.0; guard = f.1.1.0 })

pub record Symlink3args : Type 0 where
  pub where_ : Diropargs3
  pub symlink : Symlinkdata3

unfoldable pub symlink3args_codec : Codec Symlink3args
symlink3args_codec =
    struct_codec (diropargs3_codec & symlinkdata3_codec & no_fields)
      (λ s. (s.where_, (s.symlink, tt))) (λ f. record { where_ = f.0; symlink = f.1.0 })

pub record Write3args : Type 0 where
  pub file : List ℕ
  pub offset : ℕ
  pub count : ℕ
  pub stable : StableHow
  pub bytes : List ℕ

unfoldable pub write3args_codec : Codec Write3args
write3args_codec =
    struct_codec
      (nfs_fh3_codec & u64_codec & u32_codec & stable_how_codec & opaque_codec & no_fields)
      (λ s. (s.file, (s.offset, (s.count, (s.stable, (s.bytes, tt))))))
      (λ f. record {
        file = f.0;
        offset = f.1.0;
        count = f.1.1.0;
        stable = f.1.1.1.0;
        bytes = f.1.1.1.1.0;
      })
