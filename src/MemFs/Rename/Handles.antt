-- ===== src/MemFs/Rename/Handles.antt =====
-- The handles in use after `Fs::rename` of crates/nfs3_server/src/memfs/mod.rs, and `MemFs::rename`.
use nfs.Prelude.{
  bytes_eq, ◌&&◌, ℕ, ◌≡◌, refl, Bool, true, false, Option, none, some, List, [], ◌∷◌, Result, ok,
  err, ◌==◌, ==→eq, Bool-cases, Option-cases, inl, inr, ◌∙◌, ap, if◌then◌else◌,
}
use nfs.Nfs3.Status.{Nfsstat3, nfs3err_noent}
use nfs.MemFs.Entry.{Entry, file, dir, fileid, contains}
use nfs.MemFs.Store.{Failure, Fs, put, lookup, dot, dot_dot}
use nfs.MemFs.WellFormed.{IsWellFormed}
use nfs.MemFs.WellFormed.Remove.{remove-old}
use nfs.MemFs.Service.{MemFs, rename_entry}
use nfs.MemFs.Service.Stored.{IsMemFs}
use nfs.MemFs.Rename.Invariant.{update, arrive, move, rename-IsWellFormed}
use nfs.MemFs.Rename.{
  and_then, clear_target, walk_to_root, is_dir, leave, enter, update_entry, rename,
}

-- No handle is in use that was not before.
record Keeps (fs fs' : Fs) : Type 0 where
  pub old : (k : ℕ) (x : Entry) → fs'.entries k ≡ some x → (e : Entry) × (fs.entries k ≡ some e)

same-Keeps : (fs : Fs) → Keeps fs fs
same-Keeps fs = record { old = λ k x h. (x, h) }

put-Keeps : (fs : Fs) (id : ℕ) (e e' : Entry) → fs.entries id ≡ some e → Keeps fs (put id e' fs)
put-Keeps fs id e e' at_id = record {
  old = λ k x h. elim (Bool-cases (k == id)) [
    | inl same ↦ (e, ap fs.entries (==→eq k id same) ∙ at_id)
    | inr other ↦ (x, rw other at h)
  ];
}

and_then-Keeps :
    (fs : Fs) (step : Result (Unit {0}) Failure × Fs) (next : Fs → Result (Unit {0}) Failure × Fs)
    → Keeps fs step.1
    → Keeps step.1 (next step.1).1
    → Keeps fs (and_then step next).1
and_then-Keeps fs (ok tt, fs1) next a b = record {
  old = λ k x h. let (e, h') = b.old k x h in a.old k e h';
}
and_then-Keeps fs (err e, fs1) next a b = a

leave-Keeps : (dirid id : ℕ) (fs : Fs) → Keeps fs (leave dirid id fs).1
unfolding leave
leave-Keeps dirid id fs = by_entry (fs.entries dirid) refl
  where
    by_entry : (o : Option Entry) → fs.entries dirid ≡ o → Keeps fs (leave dirid id fs).1
    by_entry none h = rw (h, leave) (same-Keeps fs)
    by_entry (some (file f)) h = rw (h, leave) (same-Keeps fs)
    by_entry (some (dir d)) h = rw (h, leave) (put-Keeps fs dirid (dir d) _ h)

enter-Keeps : (dirid id : ℕ) (fs : Fs) → Keeps fs (enter dirid id fs).1
unfolding enter
enter-Keeps dirid id fs = by_entry (fs.entries dirid) refl
  where
    by_entry : (o : Option Entry) → fs.entries dirid ≡ o → Keeps fs (enter dirid id fs).1
    by_entry none h = rw (h, enter) (same-Keeps fs)
    by_entry (some (file f)) h = rw (h, enter) (same-Keeps fs)
    by_entry (some (dir d)) h =
        rw (h, enter)
          (elim (Bool-cases (contains id d.content)) [
            | inl there ↦ rw there (put-Keeps fs dirid (dir d) _ h)
            | inr other ↦ rw other (put-Keeps fs dirid (dir d) _ h)
          ])

update-Keeps :
    (dirid : ℕ) (filename : List ℕ) (id : ℕ) (fs : Fs)
    → Keeps fs (update_entry dirid filename id fs).1
unfolding update_entry
update-Keeps dirid filename id fs = elim (Option-cases (fs.entries id)) [
  | inl missing ↦ rw (missing, update_entry) (same-Keeps fs)
  | inr (e, found) ↦ rw (found, update_entry) (put-Keeps fs id e _ found)
]

clear_target-Keeps :
    (from_entry : Entry) (target : Result Entry Nfsstat3) (to_dirid : ℕ) (to_filename : List ℕ)
    (fs : Fs)
    → IsWellFormed fs
    → Keeps fs (clear_target from_entry target to_dirid to_filename fs).1
unfolding clear_target
clear_target-Keeps (file f) (err nfs3err_noent) to_dirid to_filename fs v = same-Keeps fs
clear_target-Keeps (dir d) (err nfs3err_noent) to_dirid to_filename fs v = same-Keeps fs
clear_target-Keeps (file f) (ok (file g)) to_dirid to_filename fs v = record {
  old = remove-old fs to_dirid to_filename v;
}
clear_target-Keeps (dir d) (ok (dir g)) to_dirid to_filename fs v = by_content g.content refl
  where
    by_content :
        (ids : List ℕ)
        → g.content ≡ ids
        → Keeps fs (clear_target (dir d) (ok (dir g)) to_dirid to_filename fs).1
    by_content [] h = rw (h, clear_target) (record { old = remove-old fs to_dirid to_filename v })
    by_content (x ∷ xs) h = rw (h, clear_target) (same-Keeps fs)
clear_target-Keeps (file f) (ok (dir d)) to_dirid to_filename fs v = same-Keeps fs
clear_target-Keeps (dir d) (ok (file f)) to_dirid to_filename fs v = same-Keeps fs
clear_target-Keeps (file f) (err e) to_dirid to_filename fs v = same-Keeps fs
clear_target-Keeps (dir d) (err e) to_dirid to_filename fs v = same-Keeps fs

-- The walk to the root changes nothing.
checked-Keeps :
    (b : Bool) (r : Result (Unit {0}) Failure) (fs : Fs)
    (next : Fs → Result (Unit {0}) Failure × Fs)
    → Keeps fs (next fs).1
    → Keeps fs (and_then (if b then (r, fs) else (ok tt, fs)) next).1
checked-Keeps true (ok tt) fs next h = h
checked-Keeps true (err e) fs next h = same-Keeps fs
checked-Keeps false r fs next h = h

move-Keeps :
    (from_dirid to_dirid : ℕ) (to_filename : List ℕ) (id : ℕ) (fs : Fs)
    → Keeps fs (move from_dirid to_dirid to_filename id fs).1
move-Keeps from_dirid to_dirid to_filename id fs =
    and_then-Keeps fs (leave from_dirid id fs) (arrive from_dirid to_dirid to_filename id)
      (leave-Keeps from_dirid id fs)
      (and_then-Keeps _ (enter to_dirid id (leave from_dirid id fs).1)
        (update from_dirid to_dirid to_filename id) (enter-Keeps to_dirid id _)
        (update-Keeps to_dirid to_filename id _))

-- `rename` makes no entry.
rename-Keeps :
    (fuel : ℕ) (from_dirid : ℕ) (from_filename : List ℕ) (to_dirid : ℕ) (to_filename : List ℕ)
    (fs : Fs)
    → IsWellFormed fs
    → Keeps fs (rename fuel from_dirid from_filename to_dirid to_filename fs).1
unfolding rename
rename-Keeps fuel from_dirid from_filename to_dirid to_filename fs v =
    by_lookup (lookup fs from_dirid from_filename) refl
  where
    by_lookup :
        (r : Result Entry Nfsstat3)
        → lookup fs from_dirid from_filename ≡ r
        → Keeps fs (rename fuel from_dirid from_filename to_dirid to_filename fs).1
    by_lookup (err e) h = rw (h, rename) (same-Keeps fs)
    by_lookup (ok e) h =
        rw (h, rename)
          (elim (Bool-cases ((from_dirid == to_dirid) && bytes_eq from_filename to_filename)) [
            | inl same ↦ rw same (same-Keeps fs)
            | inr other ↦ rw other (
                let step =
                  clear_target e (lookup fs to_dirid to_filename) to_dirid to_filename fs in
                and_then-Keeps fs step
                  (λ fs1.
                    and_then
                      (if is_dir e
                        then (walk_to_root fuel fs1 (fileid e) to_dirid, fs1)
                        else (ok tt, fs1))
                      (move from_dirid to_dirid to_filename (fileid e)))
                  (clear_target-Keeps e (lookup fs to_dirid to_filename) to_dirid to_filename fs v)
                  (checked-Keeps (is_dir e) (walk_to_root fuel step.1 (fileid e) to_dirid) step.1
                    (move from_dirid to_dirid to_filename (fileid e))
                    (move-Keeps from_dirid to_dirid to_filename (fileid e) step.1)))
          ])

-- On a file system that keeps its invariant, rename keeps it, whatever it returns, with any fuel and any
-- arguments, if the name of what is to be moved is not `.` or `..`.
pub rename_entry-IsMemFs :
    (fuel : ℕ) (m : MemFs) (from_dirid : ℕ) (from_filename : List ℕ) (to_dirid : ℕ)
    (to_filename : List ℕ)
    → IsMemFs m
    → bytes_eq from_filename dot ≡ false
    → bytes_eq from_filename dot_dot ≡ false
    → IsMemFs (rename_entry m fuel from_dirid from_filename to_dirid to_filename).1
unfolding rename_entry
rename_entry-IsMemFs fuel m from_dirid from_filename to_dirid to_filename v not_dot not_dot_dot =
    record {
      well_formed =
          rename-IsWellFormed fuel from_dirid from_filename to_dirid to_filename m.fs v.well_formed
            not_dot not_dot_dot;
      below = λ k x h.
          let kept =
            rename-Keeps fuel from_dirid from_filename to_dirid to_filename m.fs v.well_formed in
          let (e, old) = kept.old k x h in v.below k e old;
    }
