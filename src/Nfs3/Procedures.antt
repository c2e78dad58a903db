-- ===== src/Nfs3/Procedures.antt =====
-- The procedure numbers of crates/nfs3_types/src/nfs3.rs, and the types and codecs of the arguments and
-- the result of each procedure.
use nfs.Prelude.{ℕ, List, [], ◌∷◌, Option}
use nfs.Xdr.Codec.{Codec}
use nfs.Xdr.Primitives.{void_codec}
use nfs.Xdr.Derive.{find_variant}
use nfs.Nfs3.Status.{Nfs3Result, nfs3_result_codec}
use nfs.Nfs3.Args.{
  Getattr3args, getattr3args_codec, Setattr3args, setattr3args_codec, Lookup3args,
  lookup3args_codec, Access3args, access3args_codec, Readlink3args, readlink3args_codec, Read3args,
  read3args_codec, Write3args, write3args_codec, Create3args, create3args_codec, Mkdir3args,
  mkdir3args_codec, Symlink3args, symlink3args_codec, Mknod3args, mknod3args_codec, Remove3args,
  remove3args_codec, Rmdir3args, rmdir3args_codec, Rename3args, rename3args_codec, Link3args,
  link3args_codec, Readdir3args, readdir3args_codec, Readdirplus3args, readdirplus3args_codec,
  Fsstat3args, fsstat3args_codec, Fsinfo3args, fsinfo3args_codec, Pathconf3args,
  pathconf3args_codec, Commit3args, commit3args_codec,
}
use nfs.Nfs3.Resok.{
  Getattr3resok, getattr3resok_codec, Setattr3resok, setattr3resok_codec, Lookup3resok,
  lookup3resok_codec, Access3resok, access3resok_codec, Readlink3resok, readlink3resok_codec,
  Read3resok, read3resok_codec, Write3resok, write3resok_codec, Create3resok, create3resok_codec,
  Mkdir3resok, mkdir3resok_codec, Symlink3resok, symlink3resok_codec, Mknod3resok,
  mknod3resok_codec, Remove3resok, remove3resok_codec, Rmdir3resok, rmdir3resok_codec, Rename3resok,
  rename3resok_codec, Link3resok, link3resok_codec, Readdir3resok, readdir3resok_codec,
  Readdirplus3resok, readdirplus3resok_codec, Fsstat3resok, fsstat3resok_codec, Fsinfo3resok,
  fsinfo3resok_codec, Pathconf3resok, pathconf3resok_codec, Commit3resok, commit3resok_codec,
}
use nfs.Nfs3.Resfail.{
  Setattr3resfail, setattr3resfail_codec, Lookup3resfail, lookup3resfail_codec, Access3resfail,
  access3resfail_codec, Readlink3resfail, readlink3resfail_codec, Read3resfail, read3resfail_codec,
  Write3resfail, write3resfail_codec, Create3resfail, create3resfail_codec, Mkdir3resfail,
  mkdir3resfail_codec, Symlink3resfail, symlink3resfail_codec, Mknod3resfail, mknod3resfail_codec,
  Remove3resfail, remove3resfail_codec, Rmdir3resfail, rmdir3resfail_codec, Rename3resfail,
  rename3resfail_codec, Link3resfail, link3resfail_codec, Readdir3resfail, readdir3resfail_codec,
  Readdirplus3resfail, readdirplus3resfail_codec, Fsstat3resfail, fsstat3resfail_codec,
  Fsinfo3resfail, fsinfo3resfail_codec, Pathconf3resfail, pathconf3resfail_codec, Commit3resfail,
  commit3resfail_codec,
}

pub data NfsProgram : Type 0 where
  nfsproc3_null : NfsProgram
  nfsproc3_getattr : NfsProgram
  nfsproc3_setattr : NfsProgram
  nfsproc3_lookup : NfsProgram
  nfsproc3_access : NfsProgram
  nfsproc3_readlink : NfsProgram
  nfsproc3_read : NfsProgram
  nfsproc3_write : NfsProgram
  nfsproc3_create : NfsProgram
  nfsproc3_mkdir : NfsProgram
  nfsproc3_symlink : NfsProgram
  nfsproc3_mknod : NfsProgram
  nfsproc3_remove : NfsProgram
  nfsproc3_rmdir : NfsProgram
  nfsproc3_rename : NfsProgram
  nfsproc3_link : NfsProgram
  nfsproc3_readdir : NfsProgram
  nfsproc3_readdirplus : NfsProgram
  nfsproc3_fsstat : NfsProgram
  nfsproc3_fsinfo : NfsProgram
  nfsproc3_pathconf : NfsProgram
  nfsproc3_commit : NfsProgram

abbrev pub nfs_program_number : NfsProgram → ℕ
nfs_program_number nfsproc3_null = 0
nfs_program_number nfsproc3_getattr = 1
nfs_program_number nfsproc3_setattr = 2
nfs_program_number nfsproc3_lookup = 3
nfs_program_number nfsproc3_access = 4
nfs_program_number nfsproc3_readlink = 5
nfs_program_number nfsproc3_read = 6
nfs_program_number nfsproc3_write = 7
nfs_program_number nfsproc3_create = 8
nfs_program_number nfsproc3_mkdir = 9
nfs_program_number nfsproc3_symlink = 10
nfs_program_number nfsproc3_mknod = 11
nfs_program_number nfsproc3_remove = 12
nfs_program_number nfsproc3_rmdir = 13
nfs_program_number nfsproc3_rename = 14
nfs_program_number nfsproc3_link = 15
nfs_program_number nfsproc3_readdir = 16
nfs_program_number nfsproc3_readdirplus = 17
nfs_program_number nfsproc3_fsstat = 18
nfs_program_number nfsproc3_fsinfo = 19
nfs_program_number nfsproc3_pathconf = 20
nfs_program_number nfsproc3_commit = 21

abbrev pub nfs_programs : List NfsProgram
nfs_programs =
    nfsproc3_null ∷ nfsproc3_getattr ∷ nfsproc3_setattr ∷ nfsproc3_lookup ∷ nfsproc3_access
    ∷ nfsproc3_readlink ∷ nfsproc3_read ∷ nfsproc3_write ∷ nfsproc3_create ∷ nfsproc3_mkdir
    ∷ nfsproc3_symlink ∷ nfsproc3_mknod ∷ nfsproc3_remove ∷ nfsproc3_rmdir ∷ nfsproc3_rename
    ∷ nfsproc3_link ∷ nfsproc3_readdir ∷ nfsproc3_readdirplus ∷ nfsproc3_fsstat ∷ nfsproc3_fsinfo
    ∷ nfsproc3_pathconf ∷ nfsproc3_commit ∷ []

-- `NFS_PROGRAM::try_from`
unfoldable pub nfs_program_try_from : ℕ → Option NfsProgram
unfolding find_variant
nfs_program_try_from value = find_variant nfs_program_number nfs_programs value

-- What a client sends with a call of the procedure.
abbrev pub Arguments : NfsProgram → Type 0
Arguments nfsproc3_null = Unit
Arguments nfsproc3_getattr = Getattr3args
Arguments nfsproc3_setattr = Setattr3args
Arguments nfsproc3_lookup = Lookup3args
Arguments nfsproc3_access = Access3args
Arguments nfsproc3_readlink = Readlink3args
Arguments nfsproc3_read = Read3args
Arguments nfsproc3_write = Write3args
Arguments nfsproc3_create = Create3args
Arguments nfsproc3_mkdir = Mkdir3args
Arguments nfsproc3_symlink = Symlink3args
Arguments nfsproc3_mknod = Mknod3args
Arguments nfsproc3_remove = Remove3args
Arguments nfsproc3_rmdir = Rmdir3args
Arguments nfsproc3_rename = Rename3args
Arguments nfsproc3_link = Link3args
Arguments nfsproc3_readdir = Readdir3args
Arguments nfsproc3_readdirplus = Readdirplus3args
Arguments nfsproc3_fsstat = Fsstat3args
Arguments nfsproc3_fsinfo = Fsinfo3args
Arguments nfsproc3_pathconf = Pathconf3args
Arguments nfsproc3_commit = Commit3args

unfoldable pub arguments_codec : (p : NfsProgram) → Codec (Arguments p)
arguments_codec nfsproc3_null = void_codec
arguments_codec nfsproc3_getattr = getattr3args_codec
arguments_codec nfsproc3_setattr = setattr3args_codec
arguments_codec nfsproc3_lookup = lookup3args_codec
arguments_codec nfsproc3_access = access3args_codec
arguments_codec nfsproc3_readlink = readlink3args_codec
arguments_codec nfsproc3_read = read3args_codec
arguments_codec nfsproc3_write = write3args_codec
arguments_codec nfsproc3_create = create3args_codec
arguments_codec nfsproc3_mkdir = mkdir3args_codec
arguments_codec nfsproc3_symlink = symlink3args_codec
arguments_codec nfsproc3_mknod = mknod3args_codec
arguments_codec nfsproc3_remove = remove3args_codec
arguments_codec nfsproc3_rmdir = rmdir3args_codec
arguments_codec nfsproc3_rename = rename3args_codec
arguments_codec nfsproc3_link = link3args_codec
arguments_codec nfsproc3_readdir = readdir3args_codec
arguments_codec nfsproc3_readdirplus = readdirplus3args_codec
arguments_codec nfsproc3_fsstat = fsstat3args_codec
arguments_codec nfsproc3_fsinfo = fsinfo3args_codec
arguments_codec nfsproc3_pathconf = pathconf3args_codec
arguments_codec nfsproc3_commit = commit3args_codec

-- What the server returns.
abbrev pub ResultOf : NfsProgram → Type 0
ResultOf nfsproc3_null = Unit
ResultOf nfsproc3_getattr = Nfs3Result Getattr3resok Unit
ResultOf nfsproc3_setattr = Nfs3Result Setattr3resok Setattr3resfail
ResultOf nfsproc3_lookup = Nfs3Result Lookup3resok Lookup3resfail
ResultOf nfsproc3_access = Nfs3Result Access3resok Access3resfail
ResultOf nfsproc3_readlink = Nfs3Result Readlink3resok Readlink3resfail
ResultOf nfsproc3_read = Nfs3Result Read3resok Read3resfail
ResultOf nfsproc3_write = Nfs3Result Write3resok Write3resfail
ResultOf nfsproc3_create = Nfs3Result Create3resok Create3resfail
ResultOf nfsproc3_mkdir = Nfs3Result Mkdir3resok Mkdir3resfail
ResultOf nfsproc3_symlink = Nfs3Result Symlink3resok Symlink3resfail
ResultOf nfsproc3_mknod = Nfs3Result Mknod3resok Mknod3resfail
ResultOf nfsproc3_remove = Nfs3Result Remove3resok Remove3resfail
ResultOf nfsproc3_rmdir = Nfs3Result Rmdir3resok Rmdir3resfail
ResultOf nfsproc3_rename = Nfs3Result Rename3resok Rename3resfail
ResultOf nfsproc3_link = Nfs3Result Link3resok Link3resfail
ResultOf nfsproc3_readdir = Nfs3Result Readdir3resok Readdir3resfail
ResultOf nfsproc3_readdirplus = Nfs3Result Readdirplus3resok Readdirplus3resfail
ResultOf nfsproc3_fsstat = Nfs3Result Fsstat3resok Fsstat3resfail
ResultOf nfsproc3_fsinfo = Nfs3Result Fsinfo3resok Fsinfo3resfail
ResultOf nfsproc3_pathconf = Nfs3Result Pathconf3resok Pathconf3resfail
ResultOf nfsproc3_commit = Nfs3Result Commit3resok Commit3resfail

unfoldable pub result_codec : (p : NfsProgram) → Codec (ResultOf p)
result_codec nfsproc3_null = void_codec
result_codec nfsproc3_getattr = nfs3_result_codec getattr3resok_codec void_codec
result_codec nfsproc3_setattr = nfs3_result_codec setattr3resok_codec setattr3resfail_codec
result_codec nfsproc3_lookup = nfs3_result_codec lookup3resok_codec lookup3resfail_codec
result_codec nfsproc3_access = nfs3_result_codec access3resok_codec access3resfail_codec
result_codec nfsproc3_readlink = nfs3_result_codec readlink3resok_codec readlink3resfail_codec
result_codec nfsproc3_read = nfs3_result_codec read3resok_codec read3resfail_codec
result_codec nfsproc3_write = nfs3_result_codec write3resok_codec write3resfail_codec
result_codec nfsproc3_create = nfs3_result_codec create3resok_codec create3resfail_codec
result_codec nfsproc3_mkdir = nfs3_result_codec mkdir3resok_codec mkdir3resfail_codec
result_codec nfsproc3_symlink = nfs3_result_codec symlink3resok_codec symlink3resfail_codec
result_codec nfsproc3_mknod = nfs3_result_codec mknod3resok_codec mknod3resfail_codec
result_codec nfsproc3_remove = nfs3_result_codec remove3resok_codec remove3resfail_codec
result_codec nfsproc3_rmdir = nfs3_result_codec rmdir3resok_codec rmdir3resfail_codec
result_codec nfsproc3_rename = nfs3_result_codec rename3resok_codec rename3resfail_codec
result_codec nfsproc3_link = nfs3_result_codec link3resok_codec link3resfail_codec
result_codec nfsproc3_readdir = nfs3_result_codec readdir3resok_codec readdir3resfail_codec
result_codec nfsproc3_readdirplus =
    nfs3_result_codec readdirplus3resok_codec readdirplus3resfail_codec
result_codec nfsproc3_fsstat = nfs3_result_codec fsstat3resok_codec fsstat3resfail_codec
result_codec nfsproc3_fsinfo = nfs3_result_codec fsinfo3resok_codec fsinfo3resfail_codec
result_codec nfsproc3_pathconf = nfs3_result_codec pathconf3resok_codec pathconf3resfail_codec
result_codec nfsproc3_commit = nfs3_result_codec commit3resok_codec commit3resfail_codec
