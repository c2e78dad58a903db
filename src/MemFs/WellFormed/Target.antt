-- ===== src/MemFs/WellFormed/Target.antt =====
-- What `Fs::remove` of crates/nfs3_server/src/memfs/mod.rs takes away, before it changes anything.
use nfs.Prelude.{
  bytes_eq, ℕ, ◌≡◌, refl, ◌∙◌, ap, true, Option, none, some, List, [], ◌∷◌, Result, ok, ok_or,
  >>=-eq-ok, ◌==◌, Bool-cases, inl, inr, arith,
}
use mathlib.Core.Path.{subst}
use nfs.Nfs3.Status.{Nfsstat3, nfs3err_noent}
use nfs.MemFs.Entry.{Dir, Entry, file, dir, as_dir, name_of}
use nfs.MemFs.Store.{Fs, has_name, find_by_name, check_empty, remove_target, dot, dot_dot}
use nfs.MemFs.Sets.{In}
use nfs.MemFs.WellFormed.{IsDirAt}

find_by_name-In :
    (entries : ℕ → Option Entry) (filename ids : List ℕ) (id : ℕ)
    → find_by_name entries filename ids ≡ some id
    → In id ids × (has_name filename (entries id) ≡ true)
unfolding find_by_name
find_by_name-In entries filename [] id h = cc
find_by_name-In entries filename (i ∷ ids) id h =
    elim (Bool-cases (has_name filename (entries i))) [
      | inl named ↦
          let h' = rw named at h in
          let same : i ≡ id = cc in
          (ground arith, subst (λ k. has_name filename (entries k) ≡ true) same named)
      | inr other ↦
          let (c, n) = find_by_name-In entries filename ids id (rw other at h) in
          (elim (Bool-cases (id == i)) [ inl e ↦ ground arith | inr e ↦ ground arith ], n)
    ]

-- What `remove` found, when it has something to remove.
pub record IsTarget (fs : Fs) (dirid : ℕ) (filename : List ℕ) (object_id : ℕ) : Type 0 where
  pub parent : Dir
  pub at_dirid : IsDirAt fs dirid parent
  pub member : In object_id parent.content
  pub object : Entry
  pub at_object : fs.entries object_id ≡ some object
  pub named : bytes_eq (name_of object) filename ≡ true
  pub no_content : check_empty object ≡ ok tt

pub ok_or-ok : {A : Type 0} (o : Option A) (e : Nfsstat3) (a : A) → ok_or o e ≡ ok a → o ≡ some a
ok_or-ok none e a h = cc
ok_or-ok (some b) e a h = ground arith

pub as_dir-ok : (entry : Entry) (d : Dir) → as_dir entry ≡ ok d → entry ≡ dir d
as_dir-ok (file f) d h = cc
as_dir-ok (dir d') d h = ground arith

ok-injective : {a b : ℕ} {r : Result ℕ Nfsstat3} → r ≡ ok a → r ≡ ok b → a ≡ b
ok-injective h k = cc

-- The successes of the chain of `?`, put together.
to_target :
    (fs : Fs) (dirid : ℕ) (filename : List ℕ) (object_id : ℕ) (entry : Entry) (d : Dir)
    (object : Entry)
    → ok_or (fs.entries dirid) nfs3err_noent ≡ ok entry
    → as_dir entry ≡ ok d
    → ok_or (find_by_name fs.entries filename d.content) nfs3err_noent ≡ ok object_id
    → ok_or (fs.entries object_id) nfs3err_noent ≡ ok object
    → check_empty object ≡ ok tt
    → IsTarget fs dirid filename object_id
to_target fs dirid filename object_id entry d object p q r s t =
    let (member, named) =
      find_by_name-In fs.entries filename d.content object_id (ok_or-ok _ _ _ r) in
    let at_object = ok_or-ok (fs.entries object_id) _ _ s in
    record {
      parent = d;
      at_dirid = ok_or-ok (fs.entries dirid) _ _ p ∙ ap some (as_dir-ok entry d q);
      member = member;
      object = object;
      at_object = at_object;
      named = subst (λ o. has_name filename o ≡ true) at_object named;
      no_content = t;
    }

pub remove_target-IsTarget :
    (fs : Fs) (dirid : ℕ) (filename : List ℕ) (object_id : ℕ)
    → remove_target fs dirid filename ≡ ok object_id
    → IsTarget fs dirid filename object_id
unfolding remove_target
remove_target-IsTarget fs dirid filename object_id h = elim (Bool-cases (bytes_eq filename dot)) [
  | inl e ↦ let h' = rw e at h in absurd (ground arith)
  | inr e ↦ elim (Bool-cases (bytes_eq filename dot_dot)) [
    | inl e' ↦ let h' = rw (e, e') at h in absurd (ground arith)
    | inr e' ↦
        let h' = rw (e, e') at h in
        let (a, p, q) = >>=-eq-ok (ok_or (fs.entries dirid) _) _ h' in
        let (b, p', q') = >>=-eq-ok (as_dir a) _ q in
        let (c, p'', q'') = >>=-eq-ok (ok_or (find_by_name fs.entries filename b.content) _) _ q' in
        let (d, r, s) = >>=-eq-ok (ok_or (fs.entries c) _) _ q'' in
        let (u, r', s') = >>=-eq-ok (check_empty d) _ s in
        let same : c ≡ object_id = ok-injective refl s' in
        subst (IsTarget fs dirid filename) same (to_target fs dirid filename c a b d p p' p'' r r')
  ]
]
