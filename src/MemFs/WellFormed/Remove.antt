-- ===== src/MemFs/WellFormed/Remove.antt =====
-- The invariant of the file system through `Fs::remove` of crates/nfs3_server/src/memfs/mod.rs.
use nfs.Prelude.{
  ==→eq, some-injective, ℕ, ◌≡◌, ◌≢◌, refl, ◌∙◌, sym, ap, some, List, [], ◌∷◌, Result, ok, err,
  ◌==◌, Bool-cases, ◌⊎◌, inl, inr, arith,
}
use mathlib.Core.Path.{subst}
use nfs.Nfs3.Status.{Nfsstat3}
use nfs.MemFs.Entry.{set_remove, Dir, Entry, dir, fileid}
use nfs.MemFs.Store.{
  panicked, Fs, put, forget, check_content, check_empty, remove_target, unlink, remove,
}
use nfs.MemFs.Sets.{In, In-remove}
use nfs.MemFs.WellFormed.{IsDirAt, Member, IsWellFormed}
use nfs.MemFs.WellFormed.Target.{IsTarget, remove_target-IsTarget}

pub check_content-nil : (ids : List ℕ) → check_content ids ≡ ok tt → ids ≡ []
check_content-nil [] h = refl
check_content-nil (x ∷ xs) h = cc

pub not-In_nil : (i : ℕ) (ids : List ℕ) → ids ≡ [] → In i ids → ⊥
not-In_nil i ids e h = ground arith

module _ (fs : Fs) (dirid : ℕ) (filename : List ℕ) (object_id : ℕ) (v : IsWellFormed fs)
    (t : IsTarget fs dirid filename object_id) where
  -- A directory that holds itself is not empty, so it is not removed.
  other_than_parent : object_id ≢ dirid
  other_than_parent e =
      let as_dir : t.object ≡ dir t.parent =
        some-injective t.at_object (ap fs.entries e ∙ t.at_dirid) in
      not-In_nil object_id t.parent.content
        (check_content-nil t.parent.content (ap check_empty (sym as_dir) ∙ t.no_content)) t.member

  abbrev pub without : Dir
  without = record t.parent { content = set_remove object_id t.parent.content }

  abbrev pub unlinked : Fs
  unlinked = put dirid (dir without) (forget object_id fs)

  -- A handle is still in a directory only if it was there before, and it is not the one removed.
  unlinked-Member : (p i : ℕ) → Member unlinked p i → Member fs p i × (i ≢ object_id)
  unlinked-Member p i m = elim (Bool-cases (p == dirid)) [
    | inl same ↦
        let h = rw same at m.1 in
        let as_content : m.0.content ≡ set_remove object_id t.parent.content = cc in
        let (old, other) =
          In-remove i object_id t.parent.content (subst (λ x. In i x) as_content m.2) in
        ((t.parent, ap fs.entries (==→eq p dirid same) ∙ t.at_dirid, old), other)
    | inr other ↦
        let h = rw other at m.1 in
        elim (Bool-cases (p == object_id)) [
          | inl gone ↦ let h' = rw gone at h in absurd (cc)
          | inr kept ↦
              let old : Member fs p i = (m.0, rw kept at h, m.2) in
              (
                old,
                λ e.
                    let in_dirid : Member fs dirid i =
                      (t.parent, t.at_dirid, subst (λ k. In k t.parent.content) (sym e) t.member) in
                    let both = v.single p dirid i old in_dirid in ground arith,
              )
        ]
  ]

  unlinked-occupied :
      (k : ℕ)
      → k ≢ object_id
      → (e : Entry) × (fs.entries k ≡ some e)
      → (e : Entry) × (unlinked.entries k ≡ some e)
  unlinked-occupied k n (e, h) = elim (Bool-cases (k == dirid)) [
    | inl same ↦ (dir without, rw same refl)
    | inr other ↦ elim (Bool-cases (k == object_id)) [
      | inl gone ↦ absurd (n (==→eq k object_id gone))
      | inr kept ↦ (e, rw other (rw kept h))
    ]
  ]

  unlinked-keys : (k : ℕ) (e : Entry) → unlinked.entries k ≡ some e → fileid e ≡ k
  unlinked-keys k e h = elim (Bool-cases (k == dirid)) [
    | inl same ↦
        let h' = rw same at h in
        let as_dir : dir without ≡ e = cc in
        ap fileid (sym as_dir) ∙ v.keys dirid (dir t.parent) t.at_dirid ∙ sym (==→eq k dirid same)
    | inr other ↦
        let h' = rw other at h in
        elim (Bool-cases (k == object_id)) [
          | inl gone ↦ let h'' = rw gone at h' in absurd (cc)
          | inr kept ↦ v.keys k e (rw kept at h')
        ]
  ]

  unlinked-root : (d : Dir) × IsDirAt unlinked fs.root d
  unlinked-root =
      let not_root = v.not_root dirid object_id (t.parent, t.at_dirid, t.member) in
      elim (Bool-cases (fs.root == dirid)) [
        | inl same ↦ (without, rw same refl)
        | inr other ↦ elim (Bool-cases (fs.root == object_id)) [
          | inl gone ↦ absurd (not_root (sym (==→eq fs.root object_id gone)))
          | inr kept ↦ (v.root_dir.0, rw other (rw kept v.root_dir.1))
        ]
      ]

  unlinked-IsWellFormed : IsWellFormed unlinked
  unlinked-IsWellFormed = record {
    keys = unlinked-keys;
    closed = λ p i m.
        let (old, other) = unlinked-Member p i m in unlinked-occupied i other (v.closed p i old);
    single = λ p q i m m'. v.single p q i (unlinked-Member p i m).0 (unlinked-Member q i m').0;
    not_root = λ p i m. v.not_root p i (unlinked-Member p i m).0;
    root_dir = unlinked-root;
  }

  pub unlinked-old :
      (k : ℕ) (e : Entry) → unlinked.entries k ≡ some e → (e' : Entry) × (fs.entries k ≡ some e')
  unlinked-old k e h = elim (Bool-cases (k == dirid)) [
    | inl same ↦ (dir t.parent, ap fs.entries (==→eq k dirid same) ∙ t.at_dirid)
    | inr other ↦
        let h' = rw other at h in
        elim (Bool-cases (k == object_id)) [
          | inl gone ↦ let h'' = rw gone at h' in absurd (cc)
          | inr kept ↦ (e, rw kept at h')
        ]
  ]

  -- The directory is still there when the object is gone.
  pub remove-unlinked :
      remove_target fs dirid filename ≡ ok object_id → remove dirid filename fs ≡ (ok tt, unlinked)
  unfolding remove unlink
  remove-unlinked h =
      let still : (forget object_id fs).entries dirid ≡ some (dir t.parent) =
        elim (Bool-cases (dirid == object_id)) [
          | inl same ↦ absurd (other_than_parent (sym (==→eq dirid object_id same)))
          | inr other ↦ rw other t.at_dirid
        ] in
      rw (h, remove) (rw (still, unlink))

pub Result-cases : (r : Result ℕ Nfsstat3) → ((e : Nfsstat3) × (r ≡ err e)) ⊎ ((n : ℕ) × (r ≡ ok n))
Result-cases (ok n) = inr (n, refl)
Result-cases (err e) = inl (e, refl)

-- `remove` keeps the invariant, whatever it returns, and it does not panic: a directory that holds
-- what is removed is another entry.
pub remove-IsWellFormed :
    (fs : Fs) (dirid : ℕ) (filename : List ℕ)
    → IsWellFormed fs
    → IsWellFormed (remove dirid filename fs).1 × ((remove dirid filename fs).0 ≢ err panicked)
unfolding remove
remove-IsWellFormed fs dirid filename v = elim (Result-cases (remove_target fs dirid filename)) [
  | inl (e, failed) ↦ rw (failed, remove) (v, λ q. ground arith)
  | inr (object_id, found) ↦
      let t = remove_target-IsTarget fs dirid filename object_id found in
      rw (remove-unlinked fs dirid filename object_id v t found)
        (unlinked-IsWellFormed fs dirid filename object_id v t, λ q. ground arith)
]

-- `remove` makes no entry.
pub remove-old :
    (fs : Fs) (dirid : ℕ) (filename : List ℕ)
    → IsWellFormed fs
    → (k : ℕ) (e : Entry) → (remove dirid filename fs).1.entries k ≡ some e
    → (e' : Entry) × (fs.entries k ≡ some e')
unfolding remove
remove-old fs dirid filename v k e h = elim (Result-cases (remove_target fs dirid filename)) [
  | inl (_, failed) ↦ (e, rw (failed, remove) at h)
  | inr (object_id, found) ↦
      let t = remove_target-IsTarget fs dirid filename object_id found in
      unlinked-old fs dirid filename object_id v t k e
        (ap (λ r. r.1.entries k) (sym (remove-unlinked fs dirid filename object_id v t found)) ∙ h)
]
