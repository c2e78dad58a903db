-- ===== src/MemFs/Rename/Invariant.antt =====
-- The invariant of the file system through `Fs::rename` of crates/nfs3_server/src/memfs/mod.rs.
use nfs.Prelude.{
  bytes_eq, ◌&&◌, Bool, true, if◌then◌else◌, ◌++◌, ℕ, ◌≡◌, refl, sym, false, Option, none, some,
  List, [], ◌∷◌, Result, ok, err, ◌==◌, Bool-cases, Option-cases, inl, inr, arith,
}
use mathlib.Core.Path.{subst}
use nfs.MemFs.Entry.{Entry, file, dir, fileid, set_remove, contains}
use nfs.MemFs.Store.{lookup, dot_dot, dot, Failure, Fs, put}
use nfs.MemFs.Sets.{In, In-snoc, In-remove}
use nfs.MemFs.WellFormed.{Member, IsWellFormed}
use nfs.MemFs.WellFormed.Change.{Kept, changed-IsWellFormed}
use nfs.MemFs.WellFormed.Content.{IsFree, content-IsWellFormed}
use nfs.MemFs.Rename.Cleared.{clear_target-IsWellFormed, cleared-Member}
use nfs.MemFs.WellFormed.Found.{lookup-IsFound}
use nfs.Nfs3.Status.{Nfsstat3}
use nfs.MemFs.Rename.{
  and_then, clear_target, walk_to_root, is_dir, leave, enter, moved, update_entry, rename,
}

-- The directory loses the handle, which is in no directory then.
leave-IsWellFormed : (fs : Fs) (dirid id : ℕ) → IsWellFormed fs → IsWellFormed (leave dirid id fs).1
unfolding leave
leave-IsWellFormed fs dirid id v = by_entry (fs.entries dirid) refl
  where
    by_entry : (o : Option Entry) → fs.entries dirid ≡ o → IsWellFormed (leave dirid id fs).1
    by_entry none h = rw (h, leave) v
    by_entry (some (file f)) h = rw (h, leave) v
    by_entry (some (dir d)) h =
        rw (h, leave)
          (content-IsWellFormed fs dirid d (record d { content = set_remove id d.content }) v h refl
            (λ i x. inl (In-remove i id d.content x).0))

leave-IsFree :
    (fs : Fs) (dirid id : ℕ)
    → IsWellFormed fs
    → Member fs dirid id
    → IsFree (leave dirid id fs).1 id
unfolding leave
leave-IsFree fs dirid id v m =
    rw (m.1, leave)
      (record {
        occupied = still (v.closed dirid id m);
        not_root = v.not_root dirid id m;
        nowhere = gone;
      })
  where
    left : Fs
    left = put dirid (dir (record m.0 { content = set_remove id m.0.content })) fs

    still : (e : Entry) × (fs.entries id ≡ some e) → (e : Entry) × (left.entries id ≡ some e)
    still (e, h) = elim (Bool-cases (id == dirid)) [
      | inl same ↦ (dir (record m.0 { content = set_remove id m.0.content }), rw same refl)
      | inr other ↦ (e, rw other h)
    ]

    gone : (p : ℕ) → Member left p id → ⊥
    gone p m' = elim (Bool-cases (p == dirid)) [
      | inl same ↦
          let h = rw same at m'.1 in
          let content : m'.0.content ≡ set_remove id m.0.content = cc in
          (In-remove id id m.0.content (subst (λ x. In id x) content m'.2)).1 refl
      | inr other ↦ let e = v.single p dirid id (m'.0, rw other at m'.1, m'.2) m in ground arith
    ]

-- The directory gets a handle that is in no directory, or has it already.
enter-IsWellFormed :
    (fs : Fs) (dirid id : ℕ) → IsWellFormed fs → IsFree fs id → IsWellFormed (enter dirid id fs).1
unfolding enter
enter-IsWellFormed fs dirid id v free = by_entry (fs.entries dirid) refl
  where
    by_entry : (o : Option Entry) → fs.entries dirid ≡ o → IsWellFormed (enter dirid id fs).1
    by_entry none h = rw (h, enter) v
    by_entry (some (file f)) h = rw (h, enter) v
    by_entry (some (dir d)) h =
        let not_there : contains id d.content ≡ false = elim (Bool-cases (contains id d.content)) [
          | inl there ↦ absurd (free.nowhere dirid (d, h, there))
          | inr other ↦ other
        ] in
        rw (h, enter)
          (rw not_there (
            content-IsWellFormed fs dirid d (record d { content = d.content ++ (id ∷ []) }) v h refl
              (λ i x. elim (In-snoc i id d.content x) [
                | inl old ↦ inl old
                | inr new ↦ inr (subst (IsFree fs) (sym new) free)
              ])))

moved-Kept :
    (dirid : ℕ) (filename : List ℕ) (e : Entry)
    → Kept e (moved dirid filename e) × (fileid (moved dirid filename e) ≡ fileid e)
moved-Kept dirid filename (file f) = (tt, refl)
moved-Kept dirid filename (dir d) = (refl, refl)

update_entry-IsWellFormed :
    (dirid : ℕ) (filename : List ℕ) (id : ℕ) (fs : Fs)
    → IsWellFormed fs
    → IsWellFormed (update_entry dirid filename id fs).1
unfolding update_entry
update_entry-IsWellFormed dirid filename id fs v = elim (Option-cases (fs.entries id)) [
  | inl missing ↦ rw (missing, update_entry) v
  | inr (e, found) ↦
      let (kept, same) = moved-Kept dirid filename e in
      rw (found, update_entry)
        (changed-IsWellFormed fs id e (moved dirid filename e) v found same kept)
]

-- A step and what follows it.
and_then-IsWellFormed :
    (step : Result (Unit {0}) Failure × Fs) (next : Fs → Result (Unit {0}) Failure × Fs)
    → IsWellFormed step.1
    → (step.0 ≡ ok tt → IsWellFormed (next step.1).1)
    → IsWellFormed (and_then step next).1
and_then-IsWellFormed (ok tt, fs) next v h = h refl
and_then-IsWellFormed (err e, fs) next v h = v

-- The steps from the one directory to the other.
module _ (from_dirid to_dirid : ℕ) (to_filename : List ℕ) (id : ℕ) where
  abbrev pub update : Fs → Result (Unit {0}) Failure × Fs
  update fs = update_entry to_dirid to_filename id fs

  abbrev pub arrive : Fs → Result (Unit {0}) Failure × Fs
  arrive fs = and_then (enter to_dirid id fs) update

  abbrev pub move : Fs → Result (Unit {0}) Failure × Fs
  move fs = and_then (leave from_dirid id fs) arrive

  move-IsWellFormed :
      (fs : Fs) → IsWellFormed fs → Member fs from_dirid id → IsWellFormed (move fs).1
  move-IsWellFormed fs v m =
      let left = leave-IsWellFormed fs from_dirid id v in
      and_then-IsWellFormed (leave from_dirid id fs) arrive left (λ _.
        let entered = enter-IsWellFormed _ to_dirid id left (leave-IsFree fs from_dirid id v m) in
        and_then-IsWellFormed (enter to_dirid id (leave from_dirid id fs).1) update entered
          (λ _. update_entry-IsWellFormed to_dirid to_filename id _ entered))

-- The walk to the root changes nothing.
checked-IsWellFormed :
    (b : Bool) (r : Result (Unit {0}) Failure) (fs : Fs)
    (next : Fs → Result (Unit {0}) Failure × Fs)
    → IsWellFormed fs
    → IsWellFormed (next fs).1
    → IsWellFormed (and_then (if b then (r, fs) else (ok tt, fs)) next).1
checked-IsWellFormed true (ok tt) fs next v h = h
checked-IsWellFormed true (err e) fs next v h = v
checked-IsWellFormed false r fs next v h = h

-- `rename` keeps the invariant of a well-formed file system, whatever it returns, with any fuel, if the
-- name of what is to be moved is not `.` or `..`.
pub rename-IsWellFormed :
    (fuel : ℕ) (from_dirid : ℕ) (from_filename : List ℕ) (to_dirid : ℕ) (to_filename : List ℕ)
    (fs : Fs)
    → IsWellFormed fs
    → bytes_eq from_filename dot ≡ false
    → bytes_eq from_filename dot_dot ≡ false
    → IsWellFormed (rename fuel from_dirid from_filename to_dirid to_filename fs).1
unfolding rename
rename-IsWellFormed fuel from_dirid from_filename to_dirid to_filename fs v not_dot not_dot_dot =
    by_lookup (lookup fs from_dirid from_filename) refl
  where
    by_lookup :
        (r : Result Entry Nfsstat3)
        → lookup fs from_dirid from_filename ≡ r
        → IsWellFormed (rename fuel from_dirid from_filename to_dirid to_filename fs).1
    by_lookup (err e) h = rw (h, rename) v
    by_lookup (ok e) h =
        let found = lookup-IsFound fs from_dirid from_filename e v not_dot not_dot_dot h in
        rw (h, rename)
          (elim (Bool-cases ((from_dirid == to_dirid) && bytes_eq from_filename to_filename)) [
            | inl same ↦ rw same v
            | inr other ↦ rw other (
                let cleared =
                  clear_target-IsWellFormed e (lookup fs to_dirid to_filename) to_dirid to_filename
                    fs v in
                and_then-IsWellFormed
                  (clear_target e (lookup fs to_dirid to_filename) to_dirid to_filename fs)
                  (λ fs1.
                    and_then
                      (if is_dir e
                        then (walk_to_root fuel fs1 (fileid e) to_dirid, fs1)
                        else (ok tt, fs1))
                      (move from_dirid to_dirid to_filename (fileid e)))
                  cleared
                  (λ done.
                    checked-IsWellFormed (is_dir e) (walk_to_root fuel _ (fileid e) to_dirid) _
                      (move from_dirid to_dirid to_filename (fileid e)) cleared
                      (move-IsWellFormed from_dirid to_dirid to_filename (fileid e) _ cleared (
                        cleared-Member fs v from_dirid to_dirid from_filename to_filename e found
                          other e (lookup fs to_dirid to_filename) done))))
          ])
