-- ===== src/MemFs/Service.antt =====
-- `MemFs` of crates/nfs3_server/src/memfs/mod.rs: the operations that it offers to the server. Each
-- holds the lock for its whole length, so it is a function of the state that it finds.
pub mod Stored
pub mod Change
pub mod Panics
pub mod Reachable
pub mod Create
use nfs.Prelude.{
  bytes_eq, ℕ, ◌+◌, ◌%◌, ◌^◌, Bool, false, Option, none, some, List, [], ◌∷◌, Result, ok, err,
  ◌>>=◌, ok_or, ◌==◌, if◌then◌else◌,
}
use nfs.Nfs3.Status.{Nfsstat3, nfs3err_noent, nfs3err_exist, nfs3err_inval, nfs3err_bad_cookie}
use nfs.Nfs3.Attributes.{Nfstime3, Fattr3, dont_change, Sattr3}
use nfs.Vfs.FileSystem.{split}
use nfs.MemFs.Entry.{
  new_dir, new_file, read, write, Entry, file, dir, as_dir, as_file, name_of, attr_of, fileid,
  set_attr,
}
use nfs.MemFs.Store.{panicked, Failure, status, Fs, put, new, push, remove, lookup}
use nfs.MemFs.Rename.{rename}

pub record MemFs : Type 0 where
  pub fs : Fs
  pub rootdir : ℕ
  pub nextid : ℕ

-- `MemFs::default`
unfoldable pub empty : Nfstime3 → MemFs
unfolding new
empty now = record { fs = new now; rootdir = (new now).root; nextid = (new now).root + 1 }

-- A failed result, and the state behind it.
abbrev pub Outcome : Type 0 → Type 0
Outcome A = Result A Failure × MemFs

-- `fetch_add`, which wraps.
abbrev pub next : MemFs → MemFs
next m = record m { nextid = (m.nextid + 1) % 2 ^ 64 }

-- `push` with the result of the operation around it.
abbrev pub push_and : {A : Type 0} → ℕ → Entry → A → MemFs → Outcome A
push_and dirid entry result m =
    let (pushed, fs) = push dirid entry m.fs in
    elim pushed [
      | ok done ↦ (ok result, record m { fs = fs })
      | err e ↦ (err e, record m { fs = fs })
    ]

unfoldable pub add_dir : Nfstime3 → ℕ → List ℕ → MemFs → Outcome (ℕ × Fattr3)
add_dir now dirid dirname m =
    let d = dir (new_dir now dirname m.nextid dirid) in
    push_and dirid d (m.nextid, attr_of d) (next m)

-- The verifier of a file that is there already, against the one of the call.
abbrev pub same_verf : Option (List ℕ) → Entry → Bool
same_verf (some v) (file existing) = bytes_eq v existing.verf
same_verf _ _ = false

abbrev pub no_verf : List ℕ
no_verf = 0 ∷ 0 ∷ 0 ∷ 0 ∷ 0 ∷ 0 ∷ 0 ∷ 0 ∷ []

abbrev pub verf_or_default : Option (List ℕ) → List ℕ
verf_or_default none = no_verf
verf_or_default (some v) = v

-- The `match fs_lock.lookup(…)` of `add_file`, and the push after it.
unfoldable pub add_unless :
    ℕ → Entry → Option (List ℕ) → ℕ → Result Entry Nfsstat3 → MemFs → Outcome (ℕ × Fattr3)
add_unless dirid f verf newid (err nfs3err_noent) m = push_and dirid f (newid, attr_of f) m
add_unless dirid f verf newid (ok existing) m =
    if same_verf verf existing
    then (ok (fileid existing, attr_of f), m)
    else (err (status nfs3err_exist), m)
add_unless dirid f verf newid (err e) m = (err (status e), m)

-- What follows `file.set_attr(attr)`, which is before the lock is taken: nothing if it panicked.
unfoldable pub add_changed :
    ℕ → Option (List ℕ) → ℕ → Option (Unit {0}) × Entry → MemFs → Outcome (ℕ × Fattr3)
unfolding add_unless
add_changed dirid verf newid (none, f) m = (err panicked, m)
add_changed dirid verf newid (some _, f) m =
    add_unless dirid f verf newid (lookup m.fs dirid (name_of f)) m

unfoldable pub add_file :
    Nfstime3 → ℕ → List ℕ → Sattr3 → List ℕ → Option (List ℕ) → MemFs → Outcome (ℕ × Fattr3)
unfolding add_changed
add_file now dirid filename attr content verf m =
    add_changed dirid verf m.nextid
      (set_attr now attr (file (new_file now filename m.nextid content (verf_or_default verf))))
      (next m)

-- The attributes behind `set_attr`, or its panic.
abbrev pub set_result : Option (Unit {0}) → Entry → Result Fattr3 Failure
set_result none entry = err panicked
set_result (some _) entry = ok (attr_of entry)

-- `sattr3::default`
abbrev pub default_attr : Sattr3
default_attr = record {
  mode = none;
  uid = none;
  gid = none;
  size = none;
  atime = dont_change;
  mtime = dont_change;
}

-- The loop of `path_to_id_impl`.
unfoldable pub follow : Fs → ℕ → List (List ℕ) → Result ℕ Nfsstat3
follow fs fid [] = ok fid
follow fs fid ([] ∷ components) = follow fs fid components
follow fs fid (component ∷ components) = do
  entry ← lookup fs fid component
  follow fs (fileid entry) components

unfoldable pub path_to_id : List ℕ → MemFs → Result ℕ Nfsstat3
unfolding follow
path_to_id path m = follow m.fs m.rootdir (split path)

-- `iter.find(|i| **i == start_after)`: what is left of the iterator, if there is such a handle.
abbrev pub skip_past : ℕ → List ℕ → Option (List ℕ)
skip_past start_after [] = none
skip_past start_after (i ∷ ids) = if i == start_after then some ids else skip_past start_after ids

-- `make_iter`: the handles that the iterator is to visit.
unfoldable pub make_iter : ℕ → ℕ → MemFs → Result (List ℕ) Nfsstat3
make_iter dirid start_after m = do
  entry ← ok_or (m.fs.entries dirid) nfs3err_noent
  d ← as_dir entry
  if start_after == 0
      then ok d.content
      else ok_or (skip_past start_after d.content) nfs3err_bad_cookie

-- `visit_next_entry`: the next entry that is still there, and what is left of the iterator.
unfoldable pub visit_next_entry : Fs → List ℕ → Option ((ℕ × Entry) × List ℕ)
visit_next_entry fs [] = none
visit_next_entry fs (id ∷ ids) = elim (fs.entries id) [
  | none ↦ visit_next_entry fs ids
  | some entry ↦ some ((id, entry), ids)
]

module _ (m : MemFs) where
  unfoldable pub lookup_id : ℕ → List ℕ → Result ℕ Nfsstat3
  lookup_id dirid filename = do entry ← lookup m.fs dirid filename; ok (fileid entry)

  unfoldable pub getattr : ℕ → Result Fattr3 Nfsstat3
  getattr id = do entry ← ok_or (m.fs.entries id) nfs3err_noent; ok (attr_of entry)

  -- `none` is the panic of `File::read`.
  unfoldable pub read_file : ℕ → ℕ → ℕ → Result (Option (List ℕ × Bool)) Nfsstat3
  read_file id offset count = do
    entry ← ok_or (m.fs.entries id) nfs3err_noent
    f ← as_file entry
    ok (read f offset count)

  unfoldable pub setattr : Nfstime3 → ℕ → Sattr3 → Outcome Fattr3
  setattr now id attr = elim (m.fs.entries id) [
    | none ↦ (err (status nfs3err_noent), m)
    | some entry ↦
        let (done, entry') = set_attr now attr entry in
        (set_result done entry', record m { fs = put id entry' m.fs })
  ]

  unfoldable pub write_file : ℕ → ℕ → List ℕ → Outcome Fattr3
  write_file id offset bytes = elim (m.fs.entries id) [
    | none ↦ (err (status nfs3err_noent), m)
    | some (dir d) ↦ (err (status nfs3err_inval), m)
    | some (file f) ↦ elim (write f offset bytes) [
      | none ↦ (err panicked, m)
      | some (err e) ↦ (err (status e), m)
      | some (ok (attr, f')) ↦ (ok attr, record m { fs = put id (file f') m.fs })
    ]
  ]

  unfoldable pub create : Nfstime3 → ℕ → List ℕ → Sattr3 → Outcome (ℕ × Fattr3)
  create now dirid filename attr = add_file now dirid filename attr [] none m

  unfoldable pub create_exclusive : Nfstime3 → ℕ → List ℕ → List ℕ → Outcome ℕ
  create_exclusive now dirid filename createverf =
      let (result, m') = add_file now dirid filename default_attr [] (some createverf) m in
      ((do (id, _) ← result; ok id), m')

  unfoldable pub mkdir : Nfstime3 → ℕ → List ℕ → Outcome (ℕ × Fattr3)
  mkdir now dirid dirname = add_dir now dirid dirname m

  unfoldable pub remove_entry : ℕ → List ℕ → Outcome (Unit {0})
  remove_entry dirid filename =
      let (result, fs) = remove dirid filename m.fs in (result, record m { fs = fs })

  unfoldable pub rename_entry : ℕ → ℕ → List ℕ → ℕ → List ℕ → Outcome (Unit {0})
  rename_entry fuel from_dirid from_filename to_dirid to_filename =
      let (result, fs) = rename fuel from_dirid from_filename to_dirid to_filename m.fs in
      (result, record m { fs = fs })
