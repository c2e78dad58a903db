-- ===== src/Vfs/Adapters.antt =====
-- `ReadOnlyAdapter` of crates/nfs3_server/src/vfs/adapters/mod.rs, with its iterator. The bits 0o555 are
-- 365.
use Prim.Native.Nat.{bit_and}
use nfs.Prelude.{Option, none, some, Result, ok, err}
use nfs.Nfs3.Status.{Nfsstat3, nfs3err_rofs}
use nfs.Nfs3.Attributes.{Fattr3}
use nfs.Vfs.Action.{Action, pure, ◌>>=◌}
use nfs.Vfs.FileSystem.{
  FileSystem, read_only, DirEntryPlus, NextResult, next_ok, next_eof, next_err, default_fsinfo,
  default_lookup_by_path,
}

abbrev pub remove_write_permissions : Fattr3 → Fattr3
remove_write_permissions attr = record attr { mode = bit_and attr.mode 365 }

abbrev pub read_only_attr : Result Fattr3 Nfsstat3 → Result Fattr3 Nfsstat3
read_only_attr (ok attr) = ok (remove_write_permissions attr)
read_only_attr (err e) = err e

abbrev pub read_only_option : Option Fattr3 → Option Fattr3
read_only_option none = none
read_only_option (some attr) = some (remove_write_permissions attr)

abbrev pub read_only_entry :
    {H : Type 0} → NextResult (DirEntryPlus H) → NextResult (DirEntryPlus H)
read_only_entry (next_ok e) =
    next_ok (record e { name_attributes = read_only_option e.name_attributes })
read_only_entry next_eof = next_eof
read_only_entry (next_err e) = next_err e

module _ {S H I J : Type 0} (inner : FileSystem S H I J) where
  unfoldable pub getattr : H → Action S (Result Fattr3 Nfsstat3)
  getattr id = do result ← inner.getattr id; pure (read_only_attr result)

  -- `ReadOnlyIterator::next`
  unfoldable pub next_plus : J → Action S (NextResult (DirEntryPlus H) × J)
  next_plus iter = do (result, iter') ← inner.next_plus iter; pure (read_only_entry result, iter')

  -- What the adapter does not define is the default of the trait.
  abbrev pub read_only_adapter : FileSystem S H I J
  read_only_adapter = record {
    root_dir = inner.root_dir;
    lookup = inner.lookup;
    lookup_by_path = default_lookup_by_path inner.lookup inner.root_dir;
    getattr = getattr;
    read = inner.read;
    readdir = inner.readdir;
    readdirplus = inner.readdirplus;
    next = inner.next;
    next_plus = next_plus;
    readlink = inner.readlink;
    fsinfo = default_fsinfo getattr;
    capabilities = read_only;
    setattr = λ _ _. pure (err nfs3err_rofs);
    write = λ _ _ _. pure (err nfs3err_rofs);
    create = λ _ _ _. pure (err nfs3err_rofs);
    create_exclusive = λ _ _ _. pure (err nfs3err_rofs);
    mkdir = λ _ _. pure (err nfs3err_rofs);
    remove = λ _ _. pure (err nfs3err_rofs);
    rename = λ _ _ _ _. pure (err nfs3err_rofs);
    symlink = λ _ _ _ _. pure (err nfs3err_rofs);
  }
