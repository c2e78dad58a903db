-- ===== src/MemFs/Service/Change.antt =====
-- The invariant of the file system through `setattr`, `write` and `remove` of
-- crates/nfs3_server/src/memfs/mod.rs.
use nfs.Prelude.{
  ℕ, ◌+◌, ◌≡◌, refl, true, Option, none, some, List, ok, err, ◌==◌, ==→eq, ltb, Bool-cases,
  Option-cases, ◌⊎◌, inl, inr, arith, length,
}
use nfs.Nfs3.Status.{nfs3err_inval}
use nfs.Nfs3.Attributes.{Nfstime3, Fattr3, Sattr3}
use nfs.MemFs.Entry.{
  Dir, set_size, File, Entry, file, dir, fileid, write, set_attr, grown_for, put_bytes,
}
use nfs.MemFs.FileData.{grown_for-fileid}
use nfs.MemFs.Store.{put}
use nfs.MemFs.WellFormed.Remove.{remove-IsWellFormed, remove-old}
use nfs.MemFs.WellFormed.Change.{Kept, changed-IsWellFormed}
use nfs.MemFs.Service.{MemFs, setattr, write_file, remove_entry}
use nfs.MemFs.Service.Stored.{IsMemFs, set_attr-file}

set_size-dir :
    (size : Option ℕ) (d : Dir)
    → Kept (dir d) (set_size size (dir d)).1 × (fileid (set_size size (dir d)).1 ≡ d.attr.fileid)
set_size-dir none d = (refl, refl)
set_size-dir (some s) d = (refl, refl)

set_attr-dir :
    (now : Nfstime3) (sattr : Sattr3) (d : Dir)
    → Kept (dir d) (set_attr now sattr (dir d)).1
      × (fileid (set_attr now sattr (dir d)).1 ≡ d.attr.fileid)
unfolding set_attr
set_attr-dir now sattr d = let (k, i) = set_size-dir sattr.size _ in (k, i)

-- `set_attr` keeps the kind of an entry, its handle and the handles in it.
set_attr-Kept :
    (now : Nfstime3) (sattr : Sattr3) (e : Entry)
    → Kept e (set_attr now sattr e).1 × (fileid (set_attr now sattr e).1 ≡ fileid e)
set_attr-Kept now sattr (file f) =
    let (f', p, _, same) = set_attr-file now sattr f in rw p (tt, same)
set_attr-Kept now sattr (dir d) = set_attr-dir now sattr d

write-outside :
    (f : File) (offset : ℕ) (bytes : List ℕ)
    → ltb (length f.content) offset ≡ true
    → write f offset bytes ≡ some (err nfs3err_inval)
unfolding write
write-outside f offset bytes outside = rw outside refl

-- A write is refused, panics or gives a file with the same handle.
write-cases :
    (f : File) (offset : ℕ) (bytes : List ℕ)
    → (write f offset bytes ≡ some (err nfs3err_inval))
      ⊎ ((write f offset bytes ≡ none)
          ⊎ ((attr : Fattr3) × (f' : File) × (write f offset bytes ≡ some (ok (attr, f')))
              × (f'.attr.fileid ≡ f.attr.fileid)))
unfolding write
write-cases f offset bytes = elim (Bool-cases (ltb (length f.content) offset)) [
  | inl outside ↦ inl (write-outside f offset bytes outside)
  | inr inside ↦ elim (Option-cases (grown_for (offset + length bytes) f)) [
    | inl panic ↦ inr (inl (rw inside (rw panic refl)))
    | inr (g, grown) ↦ inr (
        inr (
          (put_bytes offset bytes g).attr,
          put_bytes offset bytes g,
          rw inside (rw grown refl),
          grown_for-fileid f (offset + length bytes) g grown,
        ))
  ]
]

module _ (m : MemFs) (v : IsMemFs m) where
  -- The state with another entry under the same handle.
  abbrev replaced : ℕ → Entry → MemFs
  replaced id e' = record m { fs = put id e' m.fs }

  replaced-IsMemFs :
      (id : ℕ) (e e' : Entry)
      → m.fs.entries id ≡ some e
      → Kept e e'
      → fileid e' ≡ fileid e
      → IsMemFs (replaced id e')
  replaced-IsMemFs id e e' at_id kept same_id = record {
    well_formed = changed-IsWellFormed m.fs id e e' v.well_formed at_id same_id kept;
    below = λ k x h. elim (Bool-cases (k == id)) [
      | inl same ↦ omega (arith, v.below id e at_id, ==→eq k id same)
      | inr other ↦ v.below k x (rw other at h)
    ];
  }

  -- On a file system that keeps its invariant, `setattr` keeps it, whatever handle and attributes it is
  -- given and whatever it returns.
  pub setattr-IsMemFs :
      (now : Nfstime3) (id : ℕ) (sattr : Sattr3) → IsMemFs (setattr m now id sattr).1
  unfolding setattr
  setattr-IsMemFs now id sattr = elim (Option-cases (m.fs.entries id)) [
    | inl missing ↦ rw (missing, setattr) v
    | inr (e, at_id) ↦
        let (kept, same_id) = set_attr-Kept now sattr e in
        rw (at_id, setattr) (replaced-IsMemFs id e (set_attr now sattr e).1 at_id kept same_id)
  ]

  -- On a file system that keeps its invariant, `write` keeps it, whatever handle, offset and bytes it
  -- is given and whatever it returns.
  pub write_file-IsMemFs :
      (id offset : ℕ) (bytes : List ℕ) → IsMemFs (write_file m id offset bytes).1
  unfolding write_file
  write_file-IsMemFs id offset bytes = by_entry (m.fs.entries id) refl
    where
      by_entry : (o : Option Entry) → m.fs.entries id ≡ o → IsMemFs (write_file m id offset bytes).1
      by_entry none h = rw (h, write_file) v
      by_entry (some (dir d)) h = rw (h, write_file) v
      by_entry (some (file f)) h = elim (write-cases f offset bytes) [
        | inl refused ↦ rw (h, write_file) (rw refused v)
        | inr (inl panic) ↦ rw (h, write_file) (rw panic v)
        | inr (inr (attr, f', written, same_id)) ↦
            rw (h, write_file) (rw written (replaced-IsMemFs id (file f) (file f') h tt same_id))
      ]

  -- On a file system that keeps its invariant, `remove` keeps it, whatever handle and name it is given
  -- and whatever it returns.
  pub remove_entry-IsMemFs :
      (dirid : ℕ) (filename : List ℕ) → IsMemFs (remove_entry m dirid filename).1
  unfolding remove_entry
  remove_entry-IsMemFs dirid filename = record {
    well_formed = (remove-IsWellFormed m.fs dirid filename v.well_formed).0;
    below = λ k x h.
        let (e, old) = remove-old m.fs dirid filename v.well_formed k x h in v.below k e old;
  }
