-- ===== src/MemFs/Rename/Dot.antt =====
-- `Fs::rename` of crates/nfs3_server/src/memfs/mod.rs with `.` as the name of what is to be moved.
use nfs.Prelude.{
  neq→==, ==_refl, ℕ, ◌≡◌, ◌≢◌, refl, ◌∙◌, sym, ap, false, some, List, [], ◌∷◌, ◌++◌, ok, err,
  Bool-cases, inl, inr,
}
use nfs.Nfs3.Status.{nfs3err_noent}
use nfs.MemFs.Entry.{contains, set_remove, Dir, dir}
use nfs.MemFs.Store.{Fs, put, lookup, dot}
use nfs.MemFs.Sets.{snoc-In}
use nfs.MemFs.WellFormed.{IsDirAt, Member, IsWellFormed}
use nfs.MemFs.Rename.{clear_target, walk_to_root, leave, enter, moved, update_entry, rename}

module _ (fs : Fs) (from_dirid to_dirid parent : ℕ) (d t : Dir) (v : IsWellFormed fs)
    (at_from : IsDirAt fs from_dirid d) (child : Member fs parent from_dirid)
    (at_to : IsDirAt fs to_dirid t) (parent_other : parent ≢ from_dirid)
    (to_other : to_dirid ≢ from_dirid) (to_parent : to_dirid ≢ parent) where
  key : d.attr.fileid ≡ from_dirid
  key = v.keys from_dirid (dir d) at_from

  looked_up : lookup fs from_dirid dot ≡ ok (dir d)
  unfolding lookup
  looked_up = rw at_from refl

  abbrev left : Fs
  left = put from_dirid (dir (record d { content = set_remove from_dirid d.content })) fs

  abbrev entered : Fs
  entered = put to_dirid (dir (record t { content = t.content ++ (from_dirid ∷ []) })) left

  abbrev renamed : List ℕ → Fs
  renamed to_filename =
      put from_dirid
        (moved to_dirid to_filename (dir (record d { content = set_remove from_dirid d.content })))
        entered

  left-leave : leave from_dirid from_dirid fs ≡ (ok tt, left)
  unfolding leave
  left-leave = rw (at_from, leave) refl

  not_there : contains from_dirid t.content ≡ false
  not_there = elim (Bool-cases (contains from_dirid t.content)) [
    | inl there ↦ absurd (to_parent (v.single to_dirid parent from_dirid (t, at_to, there) child))
    | inr other ↦ other
  ]

  entered-enter : enter to_dirid from_dirid left ≡ (ok tt, entered)
  unfolding enter
  entered-enter =
      let at_to' : left.entries to_dirid ≡ some (dir t) =
        rw (neq→== to_dirid from_dirid to_other) at_to in
      rw (at_to', enter) (rw not_there refl)

  renamed-update :
      (to_filename : List ℕ)
      → update_entry to_dirid to_filename from_dirid entered ≡ (ok tt, renamed to_filename)
  unfolding update_entry
  renamed-update to_filename =
      let at_from' : entered.entries from_dirid
          ≡ some (dir (record d { content = set_remove from_dirid d.content })) =
        rw (neq→== from_dirid to_dirid (λ e. to_other (sym e)), ==_refl from_dirid) refl in
      rw (at_from', update_entry) refl

  -- A directory, which lies in another one, is renamed by the name `.` in itself, to a name that is free
  -- in a third directory, which is not below it. The rename succeeds, and the directory is then in its
  -- old parent and in the third directory.
  pub rename-dot :
      (fuel : ℕ) (to_filename : List ℕ)
      → lookup fs to_dirid to_filename ≡ err nfs3err_noent
      → walk_to_root fuel fs from_dirid to_dirid ≡ ok tt
      → (fs' : Fs) × (rename fuel from_dirid dot to_dirid to_filename fs ≡ (ok tt, fs'))
        × Member fs' parent from_dirid
        × Member fs' to_dirid from_dirid
  unfolding rename clear_target
  rename-dot fuel to_filename free walked = (
    renamed to_filename,
    rw (looked_up, rename)
        (rw (neq→== from_dirid to_dirid (λ e. to_other (sym e))) (
          rw (free, clear_target)
            (rw (ap (λ i. walk_to_root fuel fs i to_dirid) key ∙ walked) (
              rw (ap (λ i. leave from_dirid i fs) key ∙ left-leave) (
                rw (ap (λ i. enter to_dirid i left) key ∙ entered-enter) (
                  ap (λ i. update_entry to_dirid to_filename i entered) key
                  ∙ renamed-update to_filename)))))),
    (
      child.0,
      rw (neq→== parent from_dirid parent_other, neq→== parent to_dirid (λ e. to_parent (sym e)))
          child.1,
      child.2,
    ),
    (
      record t { content = t.content ++ (from_dirid ∷ []) },
      rw (neq→== to_dirid from_dirid to_other, ==_refl to_dirid) refl,
      snoc-In from_dirid t.content,
    ),
  )
