-- ===== src/MemFs/Service/Stored.antt =====
-- The state of the in-memory file system of crates/nfs3_server/src/memfs/mod.rs with a new entry in
-- one of its directories: its invariant, and the lookup of the new name.
use nfs.Prelude.{
  ltb, ==→eq, some-injective, bytes_eq, bytes_eq_refl, ℕ, ◌+◌, ◌^◌, ◌<◌, ◌≡◌, refl, ◌∙◌, ap, false,
  Option, none, some, List, [], ◌∷◌, ◌++◌, ok, err, ok_or, ◌==◌, ==_refl, Bool-cases, Option-cases,
  inl, inr, arith,
}
use mathlib.Core.Path.{subst}
use nfs.Nfs3.Status.{nfs3err_noent, nfs3err_serverfault}
use nfs.Nfs3.Attributes.{Nfstime3, Sattr3}
use nfs.MemFs.Entry.{
  Dir, File, resize, resized, Entry, file, dir, name_of, fileid, set_attr, set_size,
}
use nfs.MemFs.Store.{new, Fs, lookup, lookup_in, dot, dot_dot}
use nfs.MemFs.WellFormed.{new-IsWellFormed, IsDirAt, IsWellFormed}
use nfs.MemFs.WellFormed.Push.{IsEmpty, with_child, linked, push-IsWellFormed, push-linked}
use nfs.MemFs.Service.{new, MemFs, empty, next, push_and}

-- The file system is well formed and every handle in use is below the next one.
pub record IsMemFs (m : MemFs) : Type 0 where
  pub well_formed : IsWellFormed m.fs
  pub below : (id : ℕ) (e : Entry) → m.fs.entries id ≡ some e → id < m.nextid

-- The file system that `MemFs::default` makes.
pub empty-IsMemFs : (now : Nfstime3) → IsMemFs (empty now)
unfolding empty new
empty-IsMemFs now = record {
  well_formed = new-IsWellFormed now;
  below = λ id e h. elim (Bool-cases (id == 1)) [
    | inl root ↦ ground arith
    | inr other ↦ absurd (ground arith)
  ];
}

set_size-file :
    (size : Option ℕ) (f : File)
    → (f' : File) × ((set_size size (file f)).1 ≡ file f')
      × (f'.name ≡ f.name)
      × (f'.attr.fileid ≡ f.attr.fileid)
unfolding resize
set_size-file none f = (f, refl, refl, refl)
set_size-file (some s) f = elim (Bool-cases (ltb s (2 ^ 63))) [
  | inl fits ↦ (resized s f, rw fits refl, refl, refl)
  | inr large ↦ (f, rw large refl, refl, refl)
]

-- `set_attr` keeps the kind, the name and the handle of a file, after a panic too.
pub set_attr-file :
    (now : Nfstime3) (sattr : Sattr3) (f : File)
    → (f' : File) × ((set_attr now sattr (file f)).1 ≡ file f')
      × (f'.name ≡ f.name)
      × (f'.attr.fileid ≡ f.attr.fileid)
unfolding set_attr
set_attr-file now sattr f = let (f', p, q, r) = set_size-file sattr.size _ in (f', p, q, r)

unused : (m : MemFs) → IsMemFs m → m.fs.entries m.nextid ≡ none
unused m v = elim (Option-cases (m.fs.entries m.nextid)) [
  | inl vacant ↦ vacant
  | inr (e, used) ↦ absurd (omega (arith, v.below m.nextid e used))
]

-- The search of a directory that a new entry was added to, when it was in vain before.
lookup_in-snoc :
    (entries entries' : ℕ → Option Entry) (filename : List ℕ) (id : ℕ) (f : Entry) (ids : List ℕ)
    → ((i : ℕ) (e : Entry)
        → entries i ≡ some e
        → (e' : Entry) × (entries' i ≡ some e') × (name_of e' ≡ name_of e))
    → entries' id ≡ some f
    → name_of f ≡ filename
    → lookup_in entries filename ids ≡ err nfs3err_noent
    → lookup_in entries' filename (ids ++ (id ∷ [])) ≡ ok f
unfolding lookup_in
lookup_in-snoc entries entries' filename id f [] kept at_id named h =
    rw (at_id, lookup_in) (rw named (rw (bytes_eq_refl filename)))
lookup_in-snoc entries entries' filename id f (i ∷ ids) kept at_id named h =
    elim (Option-cases (entries i)) [
      | inl missing ↦ let h' = rw (missing, lookup_in) at h in absurd (ground arith)
      | inr (e, found) ↦
          let (e', found', same) = kept i e found in
          let h' = rw (found, lookup_in) at h in
          elim (Bool-cases (bytes_eq (name_of e) filename)) [
            | inl hit ↦ let h'' = rw hit at h' in absurd (ground arith)
            | inr other ↦
                rw (found', lookup_in)
                  (rw same (
                    rw other (
                      lookup_in-snoc entries entries' filename id f ids kept at_id named
                        (rw other at h'))))
          ]
    ]

-- The lookup in a directory was in vain: it is not `.` or `..`, and no entry of it has the name.
lookup-noent :
    (fs : Fs) (dirid : ℕ) (filename : List ℕ) (d : Dir)
    → IsDirAt fs dirid d
    → lookup fs dirid filename ≡ err nfs3err_noent
    → (bytes_eq filename dot ≡ false)
      × (bytes_eq filename dot_dot ≡ false)
      × (lookup_in fs.entries filename d.content ≡ err nfs3err_noent)
unfolding lookup
lookup-noent fs dirid filename d at_dir h =
    let h' = rw (at_dir, lookup) at h in
    elim (Bool-cases (bytes_eq filename dot)) [
      | inl e ↦ let h'' = rw e at h' in absurd (ground arith)
      | inr e ↦
          let h'' = rw e at h' in
          elim (Bool-cases (bytes_eq filename dot_dot)) [
            | inl e' ↦ let h3 = rw e' at h'' in absurd (parent_lookup (fs.entries d.parent) h3)
            | inr e' ↦ (e, e', rw e' at h'')
          ]
    ]
  where
    parent_lookup : (o : Option Entry) → ok_or o nfs3err_serverfault ≡ err nfs3err_noent → ⊥
    parent_lookup none h = cc
    parent_lookup (some e) h = cc

module _ (m : MemFs) (v : IsMemFs m) (dirid : ℕ) (d : Dir) (at_dir : IsDirAt m.fs dirid d)
    (entry : Entry) (is_new : fileid entry ≡ m.nextid) (empty : IsEmpty entry) where
  vacant : m.fs.entries (fileid entry) ≡ none
  vacant = rw is_new (unused m v)

  -- The state after the push of an entry under the next handle.
  abbrev pub stored : MemFs
  stored = record (next m) { fs = linked dirid d entry m.fs }

  pub push_and-stored : {A : Type 0} (a : A) → push_and dirid entry a (next m) ≡ (ok a, stored)
  push_and-stored a =
      let p = push-linked m.fs dirid entry v.well_formed empty d vacant at_dir in
      rw (p, push_and) (rw p)

  dirid-not-new : (dirid == fileid entry) ≡ false
  dirid-not-new = elim (Bool-cases (dirid == fileid entry)) [
    | inr other ↦ other
    | inl same ↦ absurd (ground (arith, vacant))
  ]

  -- The new entry is under its handle, and the others keep their names.
  pub stored-new : stored.fs.entries (fileid entry) ≡ some entry
  stored-new = elim (Bool-cases (fileid entry == dirid)) [
    | inl same ↦ absurd (ground (arith, dirid-not-new))
    | inr other ↦ rw other (rw (==_refl (fileid entry)))
  ]

  pub stored-old :
      (i : ℕ) (e : Entry)
      → m.fs.entries i ≡ some e
      → (e' : Entry) × (stored.fs.entries i ≡ some e') × (name_of e' ≡ name_of e)
  stored-old i e h = elim (Bool-cases (i == dirid)) [
    | inl same ↦ (
      dir (with_child d (fileid entry)),
      rw same refl,
      ap name_of (some-injective (ap m.fs.entries (==→eq i dirid same) ∙ at_dir) h),
    )
    | inr other ↦ elim (Bool-cases (i == fileid entry)) [
      | inl clash ↦ absurd (ground (arith, vacant))
      | inr old ↦ (e, rw other (rw old h), refl)
    ]
  ]

  pub stored-IsMemFs : m.nextid + 1 < 2 ^ 64 → IsMemFs stored
  stored-IsMemFs fits = record {
    well_formed =
        subst (λ r. IsWellFormed r.1)
          (push-linked m.fs dirid entry v.well_formed empty d vacant at_dir)
          (push-IsWellFormed m.fs dirid entry v.well_formed empty).0;
    below = λ id e h. elim (Bool-cases (id == dirid)) [
      | inl same ↦ omega (arith, v.below dirid (dir d) at_dir, ==→eq id dirid same)
      | inr other ↦
          let h' = rw other at h in
          elim (Bool-cases (id == fileid entry)) [
            | inl latest ↦ omega (arith, ==→eq id (fileid entry) latest, is_new)
            | inr old ↦ let h'' = rw old at h' in omega (arith, v.below id e h'')
          ]
    ];
  }

  pub stored-lookup :
      (filename : List ℕ)
      → name_of entry ≡ filename
      → lookup m.fs dirid filename ≡ err nfs3err_noent
      → lookup stored.fs dirid filename ≡ ok entry
  unfolding lookup
  stored-lookup filename named h =
      let (e, e', nothing) = lookup-noent m.fs dirid filename d at_dir h in
      rw (==_refl dirid, lookup)
        (rw e (
          rw e' (
            lookup_in-snoc m.fs.entries stored.fs.entries filename (fileid entry) entry d.content
              stored-old stored-new named nothing)))
