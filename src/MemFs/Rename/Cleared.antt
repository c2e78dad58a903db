-- ===== src/MemFs/Rename/Cleared.antt =====
-- The start of `Fs::rename` of crates/nfs3_server/src/memfs/mod.rs: what stands at the target is removed,
-- and the entry that is to be moved is still where it was.
use nfs.Prelude.{
  [], ◌∷◌, bytes_eq, bytes_eq_refl, bytes_eq→eq, ◌&&◌, ℕ, ◌≡◌, ◌≢◌, refl, ◌∙◌, sym, ap, true, false,
  List, Result, ok, err, ◌==◌, ==_refl, ==→eq, some-injective, Bool-cases, inl, inr,
}
use mathlib.Core.Path.{subst}
use nfs.Nfs3.Status.{Nfsstat3, nfs3err_noent}
use nfs.MemFs.Entry.{Entry, Dir, file, dir, name_of, fileid}
use nfs.MemFs.Store.{Fs, check_empty, remove_target, remove}
use nfs.MemFs.Sets.{In, remove-In}
use nfs.MemFs.WellFormed.{Member, IsWellFormed}
use nfs.MemFs.WellFormed.Found.{IsFound}
use nfs.MemFs.WellFormed.Target.{IsTarget, remove_target-IsTarget}
use nfs.MemFs.WellFormed.Remove.{
  check_content-nil, not-In_nil, Result-cases, without, unlinked, remove-unlinked,
  remove-IsWellFormed,
}
use nfs.MemFs.Rename.{◌∷◌, clear_target}

pub clear_target-IsWellFormed :
    (from_entry : Entry) (found : Result Entry Nfsstat3) (to_dirid : ℕ) (to_filename : List ℕ)
    (fs : Fs)
    → IsWellFormed fs
    → IsWellFormed (clear_target from_entry found to_dirid to_filename fs).1
unfolding clear_target
clear_target-IsWellFormed (file f) (err nfs3err_noent) to_dirid to_filename fs v = v
clear_target-IsWellFormed (dir d) (err nfs3err_noent) to_dirid to_filename fs v = v
clear_target-IsWellFormed (file f) (ok (file g)) to_dirid to_filename fs v =
    (remove-IsWellFormed fs to_dirid to_filename v).0
clear_target-IsWellFormed (dir d) (ok (dir g)) to_dirid to_filename fs v = by_content g.content refl
  where
    by_content :
        (ids : List ℕ)
        → g.content ≡ ids
        → IsWellFormed (clear_target (dir d) (ok (dir g)) to_dirid to_filename fs).1
    by_content [] h = rw (h, clear_target) ((remove-IsWellFormed fs to_dirid to_filename v).0)
    by_content (x ∷ xs) h = rw (h, clear_target) v
clear_target-IsWellFormed (file f) (ok (dir d)) to_dirid to_filename fs v = v
clear_target-IsWellFormed (dir d) (ok (file f)) to_dirid to_filename fs v = v
clear_target-IsWellFormed (file f) (err e) to_dirid to_filename fs v = v
clear_target-IsWellFormed (dir d) (err e) to_dirid to_filename fs v = v

module _ (fs : Fs) (v : IsWellFormed fs) (from_dirid to_dirid : ℕ)
    (from_filename to_filename : List ℕ) (e : Entry) (found : IsFound fs from_dirid from_filename e)
    (other : ((from_dirid == to_dirid) && bytes_eq from_filename to_filename) ≡ false) where
  module _ (object_id : ℕ) (t : IsTarget fs to_dirid to_filename object_id) where
    other_object : fileid e ≢ object_id
    other_object same =
        let object : t.object ≡ e =
          some-injective t.at_object (ap fs.entries (sym same) ∙ found.stored) in
        let dirs : from_dirid ≡ to_dirid =
          v.single from_dirid to_dirid object_id
            (subst (λ i. Member fs from_dirid i) same found.member)
            (t.parent, t.at_dirid, t.member) in
        let from_name = bytes_eq→eq (name_of e) from_filename found.named in
        let to_name =
          bytes_eq→eq (name_of e) to_filename
            (subst (λ o. bytes_eq (name_of o) to_filename ≡ true) object t.named) in
        let names : bytes_eq from_filename to_filename ≡ true =
          rw (sym from_name, sym to_name) (bytes_eq_refl (name_of e)) in
        let dir_test : (from_dirid == to_dirid) ≡ true = rw dirs (==_refl to_dirid) in
        let h = rw (dir_test, names) at other in absurd (cc)

    not_object : from_dirid ≢ object_id
    not_object same =
        let as_dir : t.object ≡ dir found.member.0 =
          some-injective t.at_object (ap fs.entries (sym same) ∙ found.member.1) in
        not-In_nil (fileid e) found.member.0.content
          (check_content-nil found.member.0.content (ap check_empty (sym as_dir) ∙ t.no_content))
          found.member.2

    unlinked-Member : Member (unlinked fs to_dirid to_filename object_id v t) from_dirid (fileid e)
    unlinked-Member = elim (Bool-cases (from_dirid == to_dirid)) [
      | inl same ↦
          let dirs : dir found.member.0 ≡ dir t.parent =
            some-injective found.member.1
              (ap fs.entries (==→eq from_dirid to_dirid same) ∙ t.at_dirid) in
          let parent : found.member.0 ≡ t.parent = cc in
          (
            without fs to_dirid to_filename object_id v t,
            rw same refl,
            remove-In (fileid e) object_id t.parent.content
                (subst (λ (d : Dir). In (fileid e) d.content) parent found.member.2) other_object,
          )
      | inr apart ↦ elim (Bool-cases (from_dirid == object_id)) [
        | inl gone ↦ absurd (not_object (==→eq from_dirid object_id gone))
        | inr kept ↦ (found.member.0, rw apart (rw kept found.member.1), found.member.2)
      ]
    ]

  removed-Member :
      (remove to_dirid to_filename fs).0 ≡ ok tt
      → Member (remove to_dirid to_filename fs).1 from_dirid (fileid e)
  unfolding remove
  removed-Member h = elim (Result-cases (remove_target fs to_dirid to_filename)) [
    | inl (x, failed) ↦ let h' = rw (failed, remove) at h in absurd (cc)
    | inr (object_id, is_target) ↦
        let t = remove_target-IsTarget fs to_dirid to_filename object_id is_target in
        rw (remove-unlinked fs to_dirid to_filename object_id v t is_target)
          (unlinked-Member object_id t)
  ]

  -- The entry that is to be moved is still in its directory.
  pub cleared-Member :
      (from_entry : Entry) (target : Result Entry Nfsstat3)
      → (clear_target from_entry target to_dirid to_filename fs).0 ≡ ok tt
      → Member (clear_target from_entry target to_dirid to_filename fs).1 from_dirid (fileid e)
  unfolding clear_target
  cleared-Member (file f) (err nfs3err_noent) h = found.member
  cleared-Member (dir d) (err nfs3err_noent) h = found.member
  cleared-Member (file f) (ok (file g)) h = removed-Member h
  cleared-Member (dir d) (ok (dir g)) h = by_content g.content refl
    where
      by_content :
          (ids : List ℕ)
          → g.content ≡ ids
          → Member
              (clear_target (dir d) (ok (dir g)) to_dirid to_filename fs).1
              from_dirid
              (fileid e)
      by_content [] empty =
          rw (empty, clear_target) (removed-Member (rw (empty, clear_target) at h))
      by_content (x ∷ xs) full = let h' = rw (full, clear_target) at h in absurd (cc)
  cleared-Member (file f) (ok (dir d)) h = absurd (cc)
  cleared-Member (dir d) (ok (file f)) h = absurd (cc)
  cleared-Member (file f) (err x) h = found.member
  cleared-Member (dir d) (err x) h = found.member
