-- ===== src/MemFs/Rename.antt =====
-- `Fs::rename` of crates/nfs3_server/src/memfs/mod.rs, in the steps that the source marks. The walk
-- to the root is on fuel.
pub mod Refusal
pub mod Walk
pub mod Cleared
pub mod Invariant
pub mod Dot
pub mod Handles
use nfs.Prelude.{
  bytes_eq, ℕ, zero, suc, Bool, true, false, none, some, List, [], ◌∷◌, Result, ok, err, ◌==◌, ◌&&◌,
  if◌then◌else◌,
}
use nfs.Nfs3.Status.{
  Nfsstat3, nfs3err_noent, nfs3err_notdir, nfs3err_notempty, nfs3err_inval, nfs3err_serverfault,
}
use nfs.MemFs.Entry.{set_insert, set_remove, Entry, file, dir, fileid, set_name}
use nfs.MemFs.Store.{Failure, status, still_running, Fs, put, lookup, remove}

-- `?` on a step that may change the file system.
abbrev pub and_then :
    Result (Unit {0}) Failure × Fs
    → (Fs → Result (Unit {0}) Failure × Fs)
    → Result (Unit {0}) Failure × Fs
and_then step next = elim step.0 [ ok done ↦ next step.1 | err e ↦ (err e, step.1) ]

-- The `match (from_entry, to_entry)`: what stands at the target is removed, or is in the way.
unfoldable pub clear_target :
    Entry → Result Entry Nfsstat3 → ℕ → List ℕ → Fs → Result (Unit {0}) Failure × Fs
clear_target from_entry (err nfs3err_noent) to_dirid to_filename fs = (ok tt, fs)
clear_target (file f) (ok (file g)) to_dirid to_filename fs = remove to_dirid to_filename fs
clear_target (dir d) (ok (dir tgt_dir)) to_dirid to_filename fs = elim tgt_dir.content [
  | (x ∷ xs) ↦ (err (status nfs3err_notempty), fs)
  | [] ↦ remove to_dirid to_filename fs
]
clear_target (file f) (ok (dir d)) to_dirid to_filename fs = (err (status nfs3err_notdir), fs)
clear_target (dir d) (ok (file f)) to_dirid to_filename fs = (err (status nfs3err_notdir), fs)
clear_target from_entry (err e) to_dirid to_filename fs = (err (status e), fs)

-- The loop that refuses to move a directory into its own subdirectory.
unfoldable pub walk_to_root : ℕ → Fs → ℕ → ℕ → Result (Unit {0}) Failure
walk_to_root zero fs from_id current = err still_running
walk_to_root (suc fuel) fs from_id current =
    if current == from_id then err (status nfs3err_inval) else elim (fs.entries current) [
      | none ↦ err (status nfs3err_noent)
      | some (file f) ↦ err (status nfs3err_serverfault)
      | some (dir d) ↦ if current == fs.root then ok tt else walk_to_root fuel fs from_id d.parent
    ]

abbrev pub is_dir : Entry → Bool
is_dir (dir d) = true
is_dir (file f) = false

-- "Remove from old parent directory"
unfoldable pub leave : ℕ → ℕ → Fs → Result (Unit {0}) Failure × Fs
leave from_dirid from_id fs = elim (fs.entries from_dirid) [
  | none ↦ (err (status nfs3err_serverfault), fs)
  | some (file f) ↦ (err (status nfs3err_notdir), fs)
  | some (dir d) ↦
      (ok tt, put from_dirid (dir (record d { content = set_remove from_id d.content })) fs)
]

-- "Add to new parent directory"
unfoldable pub enter : ℕ → ℕ → Fs → Result (Unit {0}) Failure × Fs
enter to_dirid from_id fs = elim (fs.entries to_dirid) [
  | none ↦ (err (status nfs3err_serverfault), fs)
  | some (file f) ↦ (err (status nfs3err_notdir), fs)
  | some (dir d) ↦
      let (added, content) = set_insert from_id d.content in
      let fs' = put to_dirid (dir (record d { content = content })) fs in
      if added then (ok tt, fs') else (err (status nfs3err_serverfault), fs')
]

-- "Update entry's name and parent if needed"
abbrev pub moved : ℕ → List ℕ → Entry → Entry
moved to_dirid to_filename (file f) = set_name to_filename (file f)
moved to_dirid to_filename (dir d) = dir (record d { name = to_filename; parent = to_dirid })

unfoldable pub update_entry : ℕ → List ℕ → ℕ → Fs → Result (Unit {0}) Failure × Fs
update_entry to_dirid to_filename from_id fs = elim (fs.entries from_id) [
  | none ↦ (err (status nfs3err_serverfault), fs)
  | some entry ↦ (ok tt, put from_id (moved to_dirid to_filename entry) fs)
]

unfoldable pub rename : ℕ → ℕ → List ℕ → ℕ → List ℕ → Fs → Result (Unit {0}) Failure × Fs
unfolding clear_target walk_to_root leave enter update_entry
rename fuel from_dirid from_filename to_dirid to_filename fs =
    elim (lookup fs from_dirid from_filename) [
      | err e ↦ (err (status e), fs)
      | ok from_entry ↦
          if (from_dirid == to_dirid) && bytes_eq from_filename to_filename
          then (ok tt, fs)
          else and_then
              (clear_target from_entry (lookup fs to_dirid to_filename) to_dirid to_filename fs)
              (λ fs1.
                and_then
                  (if is_dir from_entry
                    then (walk_to_root fuel fs1 (fileid from_entry) to_dirid, fs1)
                    else (ok tt, fs1))
                  (λ fs2. and_then (leave from_dirid (fileid from_entry) fs2) (λ fs3.
                    and_then (enter to_dirid (fileid from_entry) fs3)
                      (λ fs4. update_entry to_dirid to_filename (fileid from_entry) fs4))))
    ]
