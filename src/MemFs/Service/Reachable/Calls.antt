-- ===== src/MemFs/Service/Reachable/Calls.antt =====
-- Calls of the operations of `MemFs` in crates/nfs3_server/src/memfs/mod.rs, one after the other.
use nfs.Prelude.{
  ◌&&◌, not, true, ℕ, ◌+◌, ◌^◌, ◌<◌, length, ◌≡◌, refl, Option, none, some, List, [], ◌∷◌, Result,
  ok, err, Option-cases, inl, inr, arith,
}
use nfs.Nfs3.Status.{Nfsstat3}
use nfs.Nfs3.Attributes.{Nfstime3, Fattr3, Sattr3}
use nfs.MemFs.Entry.{write, File, Entry, file, dir}
use nfs.MemFs.Store.{dot_dot, dot, new}
use nfs.MemFs.Service.{
  false, bytes_eq, Bool, MemFs, empty, setattr, write_file, remove_entry, create_exclusive,
  default_attr, create, mkdir,
}
use nfs.MemFs.Service.Change.{setattr-IsMemFs, write_file-IsMemFs, remove_entry-IsMemFs}
use nfs.MemFs.Service.Stored.{IsMemFs, empty-IsMemFs}
use nfs.MemFs.Service.Reachable.{Advances, add_file-Advances, add_dir-Advances}
use nfs.MemFs.Served.{MemFsConfigEntry, add_entries, add_entry, added}
use nfs.MemFs.Served as Served
use nfs.MemFs.Service.{rename_entry}
use nfs.MemFs.Service.Reachable.New.{add_entries-Made}
use nfs.MemFs.Rename.Handles.{rename_entry-IsMemFs}

setattr-nextid :
    (m : MemFs) (now : Nfstime3) (id : ℕ) (attr : Sattr3)
    → (setattr m now id attr).1.nextid ≡ m.nextid
unfolding setattr
setattr-nextid m now id attr = elim (Option-cases (m.fs.entries id)) [
  | inl missing ↦ rw (missing, setattr) refl
  | inr (e, found) ↦ rw (found, setattr) refl
]

write_file-nextid :
    (m : MemFs) (id offset : ℕ) (bytes : List ℕ)
    → (write_file m id offset bytes).1.nextid ≡ m.nextid
unfolding write_file
write_file-nextid m id offset bytes = by_entry (m.fs.entries id) refl
  where
    by_write :
        (f : File)
        → m.fs.entries id ≡ some (file f)
        → (r : Option (Result (Fattr3 × File) Nfsstat3)) → write f offset bytes ≡ r
        → (write_file m id offset bytes).1.nextid ≡ m.nextid
    by_write f h none panic = rw (h, write_file) (rw panic refl)
    by_write f h (some (err e)) refused = rw (h, write_file) (rw refused refl)
    by_write f h (some (ok (attr, f'))) written = rw (h, write_file) (rw written refl)

    by_entry :
        (o : Option Entry)
        → m.fs.entries id ≡ o
        → (write_file m id offset bytes).1.nextid ≡ m.nextid
    by_entry none h = rw (h, write_file) refl
    by_entry (some (dir d)) h = rw (h, write_file) refl
    by_entry (some (file f)) h = by_write f h (write f offset bytes) refl

-- A call of an operation that changes the state; that of `rename` has the rounds of the walk to the root.
pub data Call : Type 0 where
  call_create : Nfstime3 → ℕ → List ℕ → Sattr3 → Call
  call_create_exclusive : Nfstime3 → ℕ → List ℕ → List ℕ → Call
  call_mkdir : Nfstime3 → ℕ → List ℕ → Call
  call_setattr : Nfstime3 → ℕ → Sattr3 → Call
  call_write : ℕ → ℕ → List ℕ → Call
  call_remove : ℕ → List ℕ → Call
  call_rename : ℕ → ℕ → List ℕ → ℕ → List ℕ → Call

-- The state behind a call, and behind calls one after the other.
abbrev pub after : Call → MemFs → MemFs
after (call_create now dirid filename attr) m = (create m now dirid filename attr).1
after (call_create_exclusive now dirid filename verf) m =
    (create_exclusive m now dirid filename verf).1
after (call_mkdir now dirid dirname) m = (mkdir m now dirid dirname).1
after (call_setattr now id attr) m = (setattr m now id attr).1
after (call_write id offset bytes) m = (write_file m id offset bytes).1
after (call_remove dirid filename) m = (remove_entry m dirid filename).1
after (call_rename fuel from_dirid from_filename to_dirid to_filename) m =
    (rename_entry m fuel from_dirid from_filename to_dirid to_filename).1

abbrev pub after_all : List Call → MemFs → MemFs
after_all [] m = m
after_all (c ∷ cs) m = after_all cs (after c m)

-- Whether no call moves `.` or `..`.
abbrev pub moves_by_name : Call → Bool
moves_by_name (call_rename fuel from_dirid from_filename to_dirid to_filename) =
    not (bytes_eq from_filename dot) && not (bytes_eq from_filename dot_dot)
moves_by_name _ = true

abbrev pub all_move_by_name : List Call → Bool
all_move_by_name [] = true
all_move_by_name (c ∷ cs) = moves_by_name c && all_move_by_name cs

both : (a b : Bool) → a && b ≡ true → (a ≡ true) × (b ≡ true)
both true b h = (refl, h)
both false b h = absurd (cc)

neither : (a b : Bool) → not a && not b ≡ true → (a ≡ false) × (b ≡ false)
neither false false h = (refl, refl)
neither false true h = absurd (cc)
neither true b h = absurd (cc)

after-Advances :
    (c : Call) (m : MemFs)
    → IsMemFs m
    → m.nextid + 1 < 2 ^ 64
    → moves_by_name c ≡ true
    → Advances m (after c m)
unfolding create create_exclusive mkdir remove_entry rename_entry
after-Advances (call_create now dirid filename attr) m v fits named =
    add_file-Advances m v fits now dirid filename attr [] none
after-Advances (call_create_exclusive now dirid filename verf) m v fits named =
    add_file-Advances m v fits now dirid filename default_attr [] (some verf)
after-Advances (call_mkdir now dirid dirname) m v fits named =
    add_dir-Advances m v fits now dirid dirname
after-Advances (call_setattr now id attr) m v fits named =
    (setattr-IsMemFs m v now id attr, omega (arith, setattr-nextid m now id attr))
after-Advances (call_write id offset bytes) m v fits named =
    (write_file-IsMemFs m v id offset bytes, omega (arith, write_file-nextid m id offset bytes))
after-Advances (call_remove dirid filename) m v fits named =
    (remove_entry-IsMemFs m v dirid filename, omega arith)
after-Advances (call_rename fuel from_dirid from_filename to_dirid to_filename) m v fits named =
    let (not_dot, not_dot_dot) =
      neither (bytes_eq from_filename dot) (bytes_eq from_filename dot_dot) named in
    (
      rename_entry-IsMemFs fuel m from_dirid from_filename to_dirid to_filename v not_dot
          not_dot_dot,
      omega arith,
    )

after_all-IsMemFs-from :
    (cs : List Call) (m : MemFs)
    → IsMemFs m
    → m.nextid + length cs < 2 ^ 64
    → all_move_by_name cs ≡ true
    → IsMemFs (after_all cs m)
after_all-IsMemFs-from [] m v fits named = v
after_all-IsMemFs-from (c ∷ cs) m v fits named =
    let (first, rest) = both (moves_by_name c) (all_move_by_name cs) named in
    let (v', grown) = after-Advances c m v (omega arith) first in
    after_all-IsMemFs-from cs (after c m) v' (omega (arith, grown, fits)) rest

-- If `MemFs::new` succeeds on a configuration, and then `create`, `create_exclusive`, `mkdir`, `setattr`,
-- `write`, `remove` and `rename` are called one after the other, with any arguments, except that `rename`
-- moves no `.` or `..`, and whatever each call returns, then the invariant of the file system holds in the
-- end. The entries of the configuration and the calls are fewer than 2^64 - 2 together.
pub after_all-IsMemFs :
    (now : Nfstime3) (entries : List MemFsConfigEntry) (cs : List Call) (m : MemFs)
    → Served.new now entries ≡ ok m
    → all_move_by_name cs ≡ true
    → length entries + length cs + 2 < 2 ^ 64
    → IsMemFs (after_all cs m)
unfolding empty new
after_all-IsMemFs now entries cs m made named fits =
    let (v, grown) =
      add_entries-Made now entries (empty now) m (empty-IsMemFs now) (omega arith) made in
    after_all-IsMemFs-from cs m v (omega arith) named
