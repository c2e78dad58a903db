-- ===== src/Nfs3/Resfail.antt =====
-- What the procedures of crates/nfs3_types/src/nfs3.rs return with a status when they fail, with the
-- derived codecs.
use nfs.Prelude.{Option}
use nfs.Xdr.Codec.{Codec}
use nfs.Xdr.Derive.{no_fields, ◌&◌, struct_codec}
use nfs.Nfs3.Attributes.{Fattr3, fattr3_codec, option_codec}
use nfs.Nfs3.Data.{WccData, wcc_data_codec}

pub record Access3resfail : Type 0 where
  pub obj_attributes : Option Fattr3

unfoldable pub access3resfail_codec : Codec Access3resfail
access3resfail_codec =
    struct_codec ((option_codec fattr3_codec) & no_fields) (λ s. (s.obj_attributes, tt))
      (λ f. record { obj_attributes = f.0 })

pub record Commit3resfail : Type 0 where
  pub file_wcc : WccData

unfoldable pub commit3resfail_codec : Codec Commit3resfail
commit3resfail_codec =
    struct_codec (wcc_data_codec & no_fields) (λ s. (s.file_wcc, tt))
      (λ f. record { file_wcc = f.0 })

pub record Create3resfail : Type 0 where
  pub dir_wcc : WccData

unfoldable pub create3resfail_codec : Codec Create3resfail
create3resfail_codec =
    struct_codec (wcc_data_codec & no_fields) (λ s. (s.dir_wcc, tt)) (λ f. record { dir_wcc = f.0 })

pub record Fsinfo3resfail : Type 0 where
  pub obj_attributes : Option Fattr3

unfoldable pub fsinfo3resfail_codec : Codec Fsinfo3resfail
fsinfo3resfail_codec =
    struct_codec ((option_codec fattr3_codec) & no_fields) (λ s. (s.obj_attributes, tt))
      (λ f. record { obj_attributes = f.0 })

pub record Fsstat3resfail : Type 0 where
  pub obj_attributes : Option Fattr3

unfoldable pub fsstat3resfail_codec : Codec Fsstat3resfail
fsstat3resfail_codec =
    struct_codec ((option_codec fattr3_codec) & no_fields) (λ s. (s.obj_attributes, tt))
      (λ f. record { obj_attributes = f.0 })

pub record Link3resfail : Type 0 where
  pub file_attributes : Option Fattr3
  pub linkdir_wcc : WccData

unfoldable pub link3resfail_codec : Codec Link3resfail
link3resfail_codec =
    struct_codec ((option_codec fattr3_codec) & wcc_data_codec & no_fields)
      (λ s. (s.file_attributes, (s.linkdir_wcc, tt)))
      (λ f. record { file_attributes = f.0; linkdir_wcc = f.1.0 })

pub record Lookup3resfail : Type 0 where
  pub dir_attributes : Option Fattr3

unfoldable pub lookup3resfail_codec : Codec Lookup3resfail
lookup3resfail_codec =
    struct_codec ((option_codec fattr3_codec) & no_fields) (λ s. (s.dir_attributes, tt))
      (λ f. record { dir_attributes = f.0 })

pub record Mkdir3resfail : Type 0 where
  pub dir_wcc : WccData

unfoldable pub mkdir3resfail_codec : Codec Mkdir3resfail
mkdir3resfail_codec =
    struct_codec (wcc_data_codec & no_fields) (λ s. (s.dir_wcc, tt)) (λ f. record { dir_wcc = f.0 })

pub record Mknod3resfail : Type 0 where
  pub dir_wcc : WccData

unfoldable pub mknod3resfail_codec : Codec Mknod3resfail
mknod3resfail_codec =
    struct_codec (wcc_data_codec & no_fields) (λ s. (s.dir_wcc, tt)) (λ f. record { dir_wcc = f.0 })

pub record Pathconf3resfail : Type 0 where
  pub obj_attributes : Option Fattr3

unfoldable pub pathconf3resfail_codec : Codec Pathconf3resfail
pathconf3resfail_codec =
    struct_codec ((option_codec fattr3_codec) & no_fields) (λ s. (s.obj_attributes, tt))
      (λ f. record { obj_attributes = f.0 })

pub record Read3resfail : Type 0 where
  pub file_attributes : Option Fattr3

unfoldable pub read3resfail_codec : Codec Read3resfail
read3resfail_codec =
    struct_codec ((option_codec fattr3_codec) & no_fields) (λ s. (s.file_attributes, tt))
      (λ f. record { file_attributes = f.0 })

pub record Readdir3resfail : Type 0 where
  pub dir_attributes : Option Fattr3

unfoldable pub readdir3resfail_codec : Codec Readdir3resfail
readdir3resfail_codec =
    struct_codec ((option_codec fattr3_codec) & no_fields) (λ s. (s.dir_attributes, tt))
      (λ f. record { dir_attributes = f.0 })

pub record Readdirplus3resfail : Type 0 where
  pub dir_attributes : Option Fattr3

unfoldable pub readdirplus3resfail_codec : Codec Readdirplus3resfail
readdirplus3resfail_codec =
    struct_codec ((option_codec fattr3_codec) & no_fields) (λ s. (s.dir_attributes, tt))
      (λ f. record { dir_attributes = f.0 })

pub record Readlink3resfail : Type 0 where
  pub symlink_attributes : Option Fattr3

unfoldable pub readlink3resfail_codec : Codec Readlink3resfail
readlink3resfail_codec =
    struct_codec ((option_codec fattr3_codec) & no_fields) (λ s. (s.symlink_attributes, tt))
      (λ f. record { symlink_attributes = f.0 })

pub record Remove3resfail : Type 0 where
  pub dir_wcc : WccData

unfoldable pub remove3resfail_codec : Codec Remove3resfail
remove3resfail_codec =
    struct_codec (wcc_data_codec & no_fields) (λ s. (s.dir_wcc, tt)) (λ f. record { dir_wcc = f.0 })

pub record Rename3resfail : Type 0 where
  pub fromdir_wcc : WccData
  pub todir_wcc : WccData

unfoldable pub rename3resfail_codec : Codec Rename3resfail
rename3resfail_codec =
    struct_codec (wcc_data_codec & wcc_data_codec & no_fields)
      (λ s. (s.fromdir_wcc, (s.todir_wcc, tt)))
      (λ f. record { fromdir_wcc = f.0; todir_wcc = f.1.0 })

pub record Rmdir3resfail : Type 0 where
  pub dir_wcc : WccData

unfoldable pub rmdir3resfail_codec : Codec Rmdir3resfail
rmdir3resfail_codec =
    struct_codec (wcc_data_codec & no_fields) (λ s. (s.dir_wcc, tt)) (λ f. record { dir_wcc = f.0 })

pub record Setattr3resfail : Type 0 where
  pub obj_wcc : WccData

unfoldable pub setattr3resfail_codec : Codec Setattr3resfail
setattr3resfail_codec =
    struct_codec (wcc_data_codec & no_fields) (λ s. (s.obj_wcc, tt)) (λ f. record { obj_wcc = f.0 })

pub record Symlink3resfail : Type 0 where
  pub dir_wcc : WccData

unfoldable pub symlink3resfail_codec : Codec Symlink3resfail
symlink3resfail_codec =
    struct_codec (wcc_data_codec & no_fields) (λ s. (s.dir_wcc, tt)) (λ f. record { dir_wcc = f.0 })

pub record Write3resfail : Type 0 where
  pub file_wcc : WccData

unfoldable pub write3resfail_codec : Codec Write3resfail
write3resfail_codec =
    struct_codec (wcc_data_codec & no_fields) (λ s. (s.file_wcc, tt))
      (λ f. record { file_wcc = f.0 })
