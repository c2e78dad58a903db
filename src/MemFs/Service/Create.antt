-- ===== src/MemFs/Service/Create.antt =====
-- `create` and `mkdir` of crates/nfs3_server/src/memfs/mod.rs: what they store, what
-- a lookup finds then, and the invariant of the file system.
use nfs.Prelude.{
  lt→ltb, ℕ, ◌+◌, ◌^◌, ◌<◌, ◌≡◌, ◌≢◌, refl, ◌∙◌, sym, ap, none, some, List, [], ◌∷◌, ok, err, ok_or,
  ◌>>=◌, ==_refl, arith,
}
use mathlib.Core.Path.{subst}
use nfs.Nfs3.Status.{nfs3err_noent}
use nfs.Nfs3.Attributes.{Nfstime3, Fattr3, Sattr3}
use nfs.MemFs.Entry.{
  set_size, File, resize, Dir, new_dir, new_file, Entry, file, dir, name_of, attr_of, fileid,
  set_attr,
}
use nfs.MemFs.Store.{lookup}
use nfs.MemFs.Sets.{In, In-append, snoc-In}
use nfs.MemFs.WellFormed.{IsDirAt}
use nfs.MemFs.WellFormed.Push.{IsEmpty, with_child}
use nfs.MemFs.Service.{
  Option, MemFs, empty, next, add_dir, add_unless, add_changed, add_file, no_verf, lookup_id,
  getattr, create, mkdir,
}
use nfs.MemFs.Service.Stored.{
  IsMemFs, set_attr-file, stored, stored-new, stored-old, stored-IsMemFs, stored-lookup,
  push_and-stored,
}

-- A size that is to be set does not pass the largest length of a vector.
abbrev pub SizeFits : Sattr3 → Type 0
SizeFits sattr = (size : ℕ) → sattr.size ≡ some size → size < 2 ^ 63

-- The entry that `create` makes, with its name and handle.
created : Nfstime3 → List ℕ → ℕ → Sattr3 → Entry
created now filename id sattr = (set_attr now sattr (file (new_file now filename id [] no_verf))).1

set_size-fits :
    (size : Option ℕ) (f : File)
    → ((s : ℕ) → size ≡ some s → s < 2 ^ 63)
    → (set_size size (file f)).0 ≡ some tt
unfolding resize
set_size-fits none f fits = refl
set_size-fits (some s) f fits = rw (lt→ltb s (2 ^ 63) (fits s refl)) refl

-- `set_attr` sets a size that fits without a panic.
set_attr-fits :
    (now : Nfstime3) (sattr : Sattr3) (f : File)
    → SizeFits sattr
    → set_attr now sattr (file f) ≡ (some tt, (set_attr now sattr (file f)).1)
unfolding set_attr
set_attr-fits now sattr f fits =
    ap (λ done. (done, (set_attr now sattr (file f)).1)) (set_size-fits sattr.size _ fits)

created-entry :
    (now : Nfstime3) (filename : List ℕ) (id : ℕ) (sattr : Sattr3)
    → (name_of (created now filename id sattr) ≡ filename)
      × (fileid (created now filename id sattr) ≡ id)
      × IsEmpty (created now filename id sattr)
unfolding created new_file
created-entry now filename id sattr =
    let (f, is_file, named, same_id) =
      set_attr-file now sattr (new_file now filename id [] no_verf) in
    (ap name_of is_file ∙ named, ap fileid is_file ∙ same_id, subst IsEmpty (sym is_file) tt)

module _ (m : MemFs) (v : IsMemFs m) (fits : m.nextid + 1 < 2 ^ 64) (now : Nfstime3) (dirid : ℕ)
    (d : Dir) (at_dir : IsDirAt m.fs dirid d) where
  -- In a directory where a name is not found, `create`, if it is to set no size of 2^63 or more, stores a
  -- file under the next handle: a lookup of the name then finds that handle, whose attributes are those
  -- that the call returned, and the invariant of the file system is kept.
  pub create-lookup :
      (filename : List ℕ) (sattr : Sattr3)
      → SizeFits sattr
      → lookup m.fs dirid filename ≡ err nfs3err_noent
      → (attr : Fattr3) × (m' : MemFs) × (create m now dirid filename sattr
          ≡ (ok (m.nextid, attr), m'))
        × (lookup_id m' dirid filename ≡ ok m.nextid)
        × (getattr m' m.nextid ≡ ok attr)
        × IsMemFs m'
  unfolding created create add_file add_changed add_unless new_file lookup_id getattr
  create-lookup filename sattr size_fits h =
      let entry = created now filename m.nextid sattr in
      let (named, id, empty) = created-entry now filename m.nextid sattr in
      let at_new = stored-new m v dirid d at_dir entry id empty in
      (
        attr_of entry,
        stored m v dirid d at_dir entry id empty,
        ap (λ p. add_changed dirid none m.nextid p (next m))
              (set_attr-fits now sattr (new_file now filename m.nextid [] no_verf) size_fits)
            ∙ ap (λ n. add_unless dirid entry none m.nextid (lookup m.fs dirid n) (next m)) named
            ∙ ap (λ r. add_unless dirid entry none m.nextid r (next m)) h
            ∙ push_and-stored m v dirid d at_dir entry id empty (m.nextid, attr_of entry),
        rw (stored-lookup m v dirid d at_dir entry id empty filename named h) (ap ok id),
        ap (λ o. ok_or o nfs3err_noent >>= λ e. ok (attr_of e))
            (ap (stored m v dirid d at_dir entry id empty).fs.entries (sym id) ∙ at_new),
        stored-IsMemFs m v dirid d at_dir entry id empty fits,
      )

  -- `mkdir` does not look for the name: it succeeds for every name, one that the directory holds already
  -- included, and then two different handles of the directory have that name.
  pub mkdir-duplicate :
      (i : ℕ) (e : Entry)
      → In i d.content
      → m.fs.entries i ≡ some e
      → (attr : Fattr3) × (m' : MemFs) × (d' : Dir) × (e' : Entry) × (e'' : Entry) × (mkdir m now
            dirid
            (name_of e)
          ≡ (ok (m.nextid, attr), m'))
        × IsMemFs m'
        × IsDirAt m'.fs dirid d'
        × In i d'.content
        × In m.nextid d'.content
        × (i ≢ m.nextid)
        × (m'.fs.entries i ≡ some e')
        × (m'.fs.entries m.nextid ≡ some e'')
        × (name_of e' ≡ name_of e'')
  unfolding mkdir add_dir new_dir
  mkdir-duplicate i e held at_i =
      let entry = dir (new_dir now (name_of e) m.nextid dirid) in
      let (e', at_i', same) = stored-old m v dirid d at_dir entry refl refl i e at_i in
      (
        attr_of entry,
        stored m v dirid d at_dir entry refl refl,
        with_child d m.nextid,
        e',
        entry,
        push_and-stored m v dirid d at_dir entry refl refl (m.nextid, attr_of entry),
        stored-IsMemFs m v dirid d at_dir entry refl refl fits,
        rw (==_refl dirid),
        In-append i d.content (m.nextid ∷ []) held,
        snoc-In m.nextid d.content,
        (λ q. omega (arith, v.below i e at_i, q)),
        at_i',
        stored-new m v dirid d at_dir entry refl refl,
        same,
      )
