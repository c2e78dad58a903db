-- ===== src/MemFs/Served.antt =====
-- `MemFs` of crates/nfs3_server/src/memfs/mod.rs as a file system that the server serves, with
-- `MemFsIterator`, and `MemFs::new`.
pub mod ReadOnly
use nfs.Prelude.{ℕ, Bool, Option, none, some, List, [], ◌∷◌, Result, ok, err, if◌then◌else◌}
use nfs.Nfs3.Status.{Nfsstat3, nfs3err_notsupp}
use nfs.Nfs3.Attributes.{Nfstime3, Fattr3}
use nfs.Nfs3.Data.{Entry3}
use nfs.MemFs.Entry.{Entry, name_of, attr_of}
use nfs.MemFs.Store.{Failure, status, panicked, still_running}
use nfs.MemFs.Service.{
  MemFs, Outcome, empty, add_dir, add_file, default_attr, path_to_id, make_iter, visit_next_entry,
  lookup_id, getattr, read_file, setattr, write_file, create, create_exclusive, mkdir, remove_entry,
  rename_entry,
}
use nfs.Vfs.Action.{Action}
use nfs.Vfs.FileSystem.{
  FileSystem, read_write, DirEntryPlus, NextResult, next_ok, next_eof, default_fsinfo,
}

-- An operation that reads, under the lock.
abbrev pub reading : {A : Type 0} → (MemFs → A) → Action MemFs A
reading f m = (some (f m), m)

abbrev pub returned : {A : Type 0} → Outcome A → Option (Result A Nfsstat3) × MemFs
returned (ok a, m) = (some (ok a), m)
returned (err (status e), m) = (some (err e), m)
returned (err panicked, m) = (none, m)
returned (err still_running, m) = (none, m)

-- An operation that writes, under the lock.
abbrev pub writing : {A : Type 0} → (MemFs → Outcome A) → Action MemFs (Result A Nfsstat3)
writing f m = returned (f m)

abbrev pub read_result :
    Result (Option (List ℕ × Bool)) Nfsstat3 → Option (Result (List ℕ × Bool) Nfsstat3)
read_result (ok none) = none
read_result (ok (some r)) = some (ok r)
read_result (err e) = some (err e)

abbrev pub entry_of : ℕ → Entry → Entry3
entry_of id entry = record { fileid = id; name = name_of entry; cookie = id }

abbrev pub entry_plus_of : ℕ → Entry → DirEntryPlus ℕ
entry_plus_of id entry = record {
  fileid = id;
  name = name_of entry;
  cookie = id;
  name_attributes = some (attr_of entry);
  name_handle = some id;
}

-- The result of an iterator, with what is left of it.
abbrev pub visited :
    {R : Type 0} → (ℕ → Entry → R) → Option ((ℕ × Entry) × List ℕ) → NextResult R × List ℕ
visited f none = (next_eof, [])
visited f (some ((id, entry), ids)) = (next_ok (f id entry), ids)

-- The operations at the time `now`; `rename` walks to the root in `fuel` rounds at most.
module _ (now : Nfstime3) (fuel : ℕ) where
  abbrev pub getattr_action : ℕ → Action MemFs (Result Fattr3 Nfsstat3)
  getattr_action id = reading (λ m. getattr m id)

  abbrev pub served : MemFs → FileSystem MemFs ℕ (List ℕ) (List ℕ)
  served memfs = record {
    root_dir = memfs.rootdir;
    lookup = λ dirid filename. reading (λ m. lookup_id m dirid filename);
    lookup_by_path = λ path. reading (path_to_id path);
    getattr = getattr_action;
    read = λ id offset count m. (read_result (read_file m id offset count), m);
    readdir = λ dirid cookie. reading (make_iter dirid cookie);
    readdirplus = λ dirid cookie. reading (make_iter dirid cookie);
    next = λ ids. reading (λ m. visited entry_of (visit_next_entry m.fs ids));
    next_plus = λ ids. reading (λ m. visited entry_plus_of (visit_next_entry m.fs ids));
    readlink = λ id. reading (λ m. err nfs3err_notsupp);
    fsinfo = default_fsinfo getattr_action;
    capabilities = read_write;
    setattr = λ id attr. writing (λ m. setattr m now id attr);
    write = λ id offset bytes. writing (λ m. write_file m id offset bytes);
    create = λ dirid filename attr. writing (λ m. create m now dirid filename attr);
    create_exclusive = λ dirid filename createverf.
        writing (λ m. create_exclusive m now dirid filename createverf);
    mkdir = λ dirid dirname. writing (λ m. mkdir m now dirid dirname);
    remove = λ dirid filename. writing (λ m. remove_entry m dirid filename);
    rename = λ from_dirid from_filename to_dirid to_filename.
        writing (λ m. rename_entry m fuel from_dirid from_filename to_dirid to_filename);
    symlink = λ dirid linkname symlink attr. reading (λ m. err nfs3err_notsupp);
  }

pub record MemFsConfigEntry : Type 0 where
  pub parent : List ℕ
  pub name : List ℕ
  pub is_dir : Bool
  pub content : List ℕ

-- The result of `add_dir` or `add_file`, the rest of the loop behind it.
abbrev pub added : {A : Type 0} → Outcome A → (MemFs → Result MemFs Failure) → Result MemFs Failure
added (ok a, m) rest = rest m
added (err e, m) rest = err e

-- The body of the loop of `MemFs::new`, with the handle of the parent.
abbrev pub add_entry :
    Nfstime3
    → MemFsConfigEntry
    → MemFs
    → (MemFs → Result MemFs Failure)
    → Result ℕ Nfsstat3
    → Result MemFs Failure
add_entry now entry m rest (err e) = err (status e)
add_entry now entry m rest (ok id) =
    if entry.is_dir
    then added (add_dir now id entry.name m) rest
    else added (add_file now id entry.name default_attr entry.content none m) rest

unfoldable pub add_entries : Nfstime3 → List MemFsConfigEntry → MemFs → Result MemFs Failure
add_entries now [] m = ok m
add_entries now (entry ∷ entries) m =
    add_entry now entry m (add_entries now entries) (path_to_id entry.parent m)

-- `MemFs::new`
abbrev pub new : Nfstime3 → List MemFsConfigEntry → Result MemFs Failure
new now entries = add_entries now entries (empty now)
