-- ===== src/Vfs/FileSystem.antt =====
-- The traits `NfsReadFileSystem` and `NfsFileSystem` of crates/nfs3_server/src/vfs/mod.rs and the
-- iterators of crates/nfs3_server/src/vfs/iterator.rs. A file system is its operations on a state `S`,
-- with handles `H` and iterators `I` and `J` over entries without and with attributes.
use nfs.Prelude.{
  ℕ, ◌*◌, ◌+◌, Bool, Option, none, some, List, [], ◌∷◌, ◌==◌, if◌then◌else◌, Result, ok, err,
}
use nfs.Nfs3.Status.{Nfsstat3}
use nfs.Nfs3.Attributes.{Fattr3, Sattr3}
use nfs.Nfs3.Data.{Entry3, Entryplus3}
use nfs.Nfs3.Resok.{Fsinfo3resok}
use nfs.Vfs.Handle.{FileHandle, FileHandleConverter, fh_to_nfs}
use nfs.Vfs.Action.{Action, pure, ◌>>=◌, on_result}

pub data VfsCapabilities : Type 0 where
  read_only : VfsCapabilities
  read_write : VfsCapabilities

pub record DirEntryPlus (H : Type 0) : Type 0 where
  pub fileid : ℕ
  pub name : List ℕ
  pub cookie : ℕ
  pub name_attributes : Option Fattr3
  pub name_handle : Option H

pub data NextResult (T : Type 0) : Type 0 where
  next_ok : T → NextResult T
  next_eof : NextResult T
  next_err : Nfsstat3 → NextResult T

abbrev pub handle_of :
    {H : Type 0} → FileHandle H → FileHandleConverter → Option H → Option (List ℕ)
handle_of handle c none = none
handle_of handle c (some h) = some (fh_to_nfs handle c h)

-- `DirEntryPlus::into_entry`
unfoldable pub into_entry :
    {H : Type 0} → FileHandle H → FileHandleConverter → DirEntryPlus H → Entryplus3
into_entry handle c e = record {
  fileid = e.fileid;
  name = e.name;
  cookie = e.cookie;
  name_attributes = e.name_attributes;
  name_handle = handle_of handle c e.name_handle;
}

pub record FileSystem (S H I J : Type 0) : Type 0 where
  pub root_dir : H
  pub lookup : H → List ℕ → Action S (Result H Nfsstat3)
  pub lookup_by_path : List ℕ → Action S (Result H Nfsstat3)
  pub getattr : H → Action S (Result Fattr3 Nfsstat3)
  pub read : H → ℕ → ℕ → Action S (Result (List ℕ × Bool) Nfsstat3)
  pub readdir : H → ℕ → Action S (Result I Nfsstat3)
  pub readdirplus : H → ℕ → Action S (Result J Nfsstat3)
  pub next : I → Action S (NextResult Entry3 × I)
  pub next_plus : J → Action S (NextResult (DirEntryPlus H) × J)
  pub readlink : H → Action S (Result (List ℕ) Nfsstat3)
  pub fsinfo : H → Action S (Result Fsinfo3resok Nfsstat3)
  pub capabilities : VfsCapabilities
  pub setattr : H → Sattr3 → Action S (Result Fattr3 Nfsstat3)
  pub write : H → ℕ → List ℕ → Action S (Result Fattr3 Nfsstat3)
  pub create : H → List ℕ → Sattr3 → Action S (Result (H × Fattr3) Nfsstat3)
  pub create_exclusive : H → List ℕ → List ℕ → Action S (Result H Nfsstat3)
  pub mkdir : H → List ℕ → Action S (Result (H × Fattr3) Nfsstat3)
  pub remove : H → List ℕ → Action S (Result (Unit {0}) Nfsstat3)
  pub rename : H → List ℕ → H → List ℕ → Action S (Result (Unit {0}) Nfsstat3)
  pub symlink : H → List ℕ → List ℕ → Sattr3 → Action S (Result (H × Fattr3) Nfsstat3)

-- `map_or(None, Some)` of a result.
abbrev pub option_from_result : {A : Type 0} → Result A Nfsstat3 → Option A
option_from_result (ok a) = some a
option_from_result (err e) = none

-- `MEBIBYTE` and `GIBIBYTE` of units.rs
abbrev pub mebibyte : ℕ
mebibyte = 1024 * 1024

abbrev pub gibibyte : ℕ
gibibyte = 1024 * 1024 * 1024

-- The `match` of `ReadDirPlusToReadDir::next` in crates/nfs3_server/src/vfs/adapters/iterator.rs, and
-- the whole of it below.
abbrev pub without_attributes : {H : Type 0} → NextResult (DirEntryPlus H) → NextResult Entry3
without_attributes (next_ok e) =
    next_ok (record { fileid = e.fileid; name = e.name; cookie = e.cookie })
without_attributes next_eof = next_eof
without_attributes (next_err e) = next_err e

module _ {S H : Type 0} where
  -- `NfsReadFileSystem::fsinfo`, unless a file system has its own, over its `getattr`. The properties
  -- are FSF3_SYMLINK, FSF3_HOMOGENEOUS and FSF3_CANSETTIME.
  unfoldable pub default_fsinfo :
      (H → Action S (Result Fattr3 Nfsstat3)) → H → Action S (Result Fsinfo3resok Nfsstat3)
  default_fsinfo getattr root_fileid = do
    dir_attr ← getattr root_fileid
    pure (
        ok (record {
          obj_attributes = option_from_result dir_attr;
          rtmax = mebibyte;
          rtpref = mebibyte;
          rtmult = mebibyte;
          wtmax = mebibyte;
          wtpref = mebibyte;
          wtmult = mebibyte;
          dtpref = mebibyte;
          maxfilesize = 128 * gibibyte;
          time_delta = record { seconds = 0; nseconds = 1000000 };
          properties = 2 + 8 + 16;
        }))

  unfoldable pub next_of_plus :
      {J : Type 0}
      → (J → Action S (NextResult (DirEntryPlus H) × J))
      → J
      → Action S (NextResult Entry3 × J)
  next_of_plus next_plus inner = do
    (result, inner') ← next_plus inner
    pure (without_attributes result, inner')

-- The components of a path, with the one that is being read in front; `/` is 47.
abbrev pub split : List ℕ → List (List ℕ)
split [] = [] ∷ []
split (c ∷ path) = elim (split path) [
  | [] ↦ (c ∷ []) ∷ []
  | (component ∷ components) ↦
      if c == 47 then [] ∷ component ∷ components else (c ∷ component) ∷ components
]

-- The loop of `NfsReadFileSystem::lookup_by_path`, unless a file system has its own, over its `lookup`.
module _ {S H : Type 0} (lookup : H → List ℕ → Action S (Result H Nfsstat3)) where
  unfoldable pub walk : H → List (List ℕ) → Action S (Result H Nfsstat3)
  walk fid [] = pure (ok fid)
  walk fid ([] ∷ components) = walk fid components
  walk fid (component ∷ components) = do
    found ← lookup fid component
    on_result found (λ fid'. walk fid' components) (λ e. pure (err e))

  abbrev pub default_lookup_by_path : H → List ℕ → Action S (Result H Nfsstat3)
  default_lookup_by_path root_dir path = walk root_dir (split path)
