-- ===== src/MemFs/Service/Reachable.antt =====
-- The states that the operations of `MemFs` in crates/nfs3_server/src/memfs/mod.rs reach in any order,
-- with `MemFs::new` in New and the calls in Calls.
pub mod New
pub mod Calls
use nfs.Prelude.{
  ℕ, ◌+◌, ◌^◌, ◌<◌, ◌≤◌, length, ◌≡◌, refl, ◌∙◌, sym, ap, Option, none, some, List, [], ◌∷◌, Result,
  ok, err, ◌==◌, ==→eq, Bool-cases, Option-cases, ◌⊎◌, inl, inr, arith,
}
use mathlib.Core.Path.{subst}
use nfs.Nfs3.Status.{Nfsstat3, nfs3err_noent}
use nfs.Nfs3.Attributes.{Nfstime3, Fattr3, Sattr3}
use nfs.MemFs.Entry.{
  write, name_of, attr_of, File, new_dir, new_file, Entry, file, dir, fileid, set_insert, set_attr,
}
use nfs.MemFs.Store.{new, Failure, Fs, put, push, push_to, lookup}
use nfs.MemFs.WellFormed.Push.{IsEmpty, push-IsWellFormed}
use nfs.MemFs.Service.{
  MemFs, empty, setattr, write_file, remove_entry, create_exclusive, add_dir, default_attr,
  verf_or_default, next, push_and, add_unless, add_changed, add_file, create, mkdir, same_verf,
}
use nfs.MemFs.Service.Change.{setattr-IsMemFs, write_file-IsMemFs, remove_entry-IsMemFs}
use nfs.MemFs.Service.Stored.{IsMemFs, set_attr-file, empty-IsMemFs}

push_to-old :
    (parent id : ℕ) (fs : Fs) (o : Option Entry)
    → fs.entries parent ≡ o
    → (k : ℕ) (x : Entry) → (push_to parent id fs o).1.entries k ≡ some x
    → (e : Entry) × (fs.entries k ≡ some e)
unfolding push_to
push_to-old parent id fs none at_parent k x h = elim (Bool-cases (k == id)) [
  | inl same ↦ let h' = rw same at h in absurd (cc)
  | inr other ↦ (x, rw other at h)
]
push_to-old parent id fs (some (file f)) at_parent k x h = elim (Bool-cases (k == id)) [
  | inl same ↦ let h' = rw same at h in absurd (cc)
  | inr other ↦ (x, rw other at h)
]
push_to-old parent id fs (some (dir d)) at_parent k x h =
    elim (Bool-cases (set_insert id d.content).0) [
      | inr present ↦ (x, rw present at h)
      | inl added ↦
          let h' = rw added at h in
          elim (Bool-cases (k == parent)) [
            | inl same ↦ (dir d, ap fs.entries (==→eq k parent same) ∙ at_parent)
            | inr other ↦ (x, rw other at h')
          ]
    ]

-- `push` makes no entry but the new one.
push-old :
    (parent : ℕ) (entry : Entry) (fs : Fs) (k : ℕ) (x : Entry)
    → (push parent entry fs).1.entries k ≡ some x
    → (k ≡ fileid entry) ⊎ ((e : Entry) × (fs.entries k ≡ some e))
unfolding push
push-old parent entry fs k x h = elim (Option-cases (fs.entries (fileid entry))) [
  | inr (e, occupied) ↦ inr (x, rw (occupied, push) at h)
  | inl vacant ↦
      let h' = rw (vacant, push) at h in
      let (e, old) =
        push_to-old parent (fileid entry) (put (fileid entry) entry fs) _ refl k x h' in
      elim (Bool-cases (k == fileid entry)) [
        | inl same ↦ inl (==→eq k (fileid entry) same)
        | inr other ↦ inr (e, rw other at old)
      ]
]

-- The later state has the invariant, and at most one handle was given out.
abbrev pub Advances : MemFs → MemFs → Type 0
Advances m m' = IsMemFs m' × (m'.nextid ≤ m.nextid + 1)

module _ (m : MemFs) (v : IsMemFs m) (fits : m.nextid + 1 < 2 ^ 64) where
  next-Advances : Advances m (next m)
  next-Advances = (
    record { well_formed = v.well_formed; below = λ k x h. omega (arith, v.below k x h) },
    omega arith,
  )

  push_and-Advances :
      {A : Type 0} (dirid : ℕ) (entry : Entry) (a : A)
      → IsEmpty entry
      → fileid entry ≡ m.nextid
      → Advances m (push_and dirid entry a (next m)).1
  push_and-Advances dirid entry a empty is_new = by_result (push dirid entry m.fs).0 refl
    where
      pushed : Advances m (record (next m) { fs = (push dirid entry m.fs).1 })
      pushed = (
        record {
          well_formed = (push-IsWellFormed m.fs dirid entry v.well_formed empty).0;
          below = λ k x h. elim (push-old dirid entry m.fs k x h) [
            | inl latest ↦ omega (arith, latest, is_new)
            | inr (e, old) ↦ omega (arith, v.below k e old)
          ];
        },
        omega arith,
      )

      by_result :
          (r : Result (Unit {0}) Failure)
          → (push dirid entry m.fs).0 ≡ r
          → Advances m (push_and dirid entry a (next m)).1
      by_result (ok done) h = rw (h, push_and) pushed
      by_result (err e) h = rw (h, push_and) pushed

  add_unless-Advances :
      (dirid : ℕ) (f : Entry) (verf : Option (List ℕ)) (r : Result Entry Nfsstat3)
      → IsEmpty f
      → fileid f ≡ m.nextid
      → Advances m (add_unless dirid f verf m.nextid r (next m)).1
  unfolding add_unless
  add_unless-Advances dirid f verf (err nfs3err_noent) empty is_new =
      push_and-Advances dirid f (m.nextid, attr_of f) empty is_new
  add_unless-Advances dirid f verf (ok existing) empty is_new =
      elim (Bool-cases (same_verf verf existing)) [
        | inl again ↦ rw again next-Advances
        | inr other ↦ rw other next-Advances
      ]
  add_unless-Advances dirid f verf (err e) empty is_new = next-Advances

  add_changed-Advances :
      (dirid : ℕ) (verf : Option (List ℕ)) (p : Option (Unit {0}) × Entry)
      → IsEmpty p.1
      → fileid p.1 ≡ m.nextid
      → Advances m (add_changed dirid verf m.nextid p (next m)).1
  unfolding add_changed
  add_changed-Advances dirid verf (none, f) empty is_new = next-Advances
  add_changed-Advances dirid verf (some _, f) empty is_new =
      add_unless-Advances dirid f verf (lookup m.fs dirid (name_of f)) empty is_new

  pub add_file-Advances :
      (now : Nfstime3) (dirid : ℕ) (filename : List ℕ) (attr : Sattr3) (content : List ℕ)
      (verf : Option (List ℕ))
      → Advances m (add_file now dirid filename attr content verf m).1
  unfolding add_file new_file
  add_file-Advances now dirid filename attr content verf =
      let (f, is_file, _, same_id) =
        set_attr-file now attr (new_file now filename m.nextid content (verf_or_default verf)) in
      add_changed-Advances dirid verf
        (set_attr now attr (file (new_file now filename m.nextid content (verf_or_default verf))))
        (subst IsEmpty (sym is_file) tt) (ap fileid is_file ∙ same_id)

  pub add_dir-Advances :
      (now : Nfstime3) (dirid : ℕ) (dirname : List ℕ) → Advances m (add_dir now dirid dirname m).1
  unfolding add_dir new_dir
  add_dir-Advances now dirid dirname =
      let d = dir (new_dir now dirname m.nextid dirid) in
      push_and-Advances dirid d (m.nextid, attr_of d) refl refl
