-- ===== src/MemFs/Service/Panics.antt =====
-- When `create` of crates/nfs3_server/src/memfs/mod.rs panics: at `Vec::resize` in `set_attr`.
use nfs.Prelude.{
  ℕ, ◌^◌, ◌≤◌, ◌≡◌, ◌≢◌, refl, sym, Option, none, some, List, [], Result, ok, err, Bool-cases, inl,
  inr, ltb, arith, some-injective, false, ◌∙◌,
}
use mathlib.Core.Path.{subst}
use nfs.Nfs3.Status.{Nfsstat3, nfs3err_noent}
use nfs.Nfs3.Attributes.{Nfstime3, Sattr3}
use nfs.MemFs.Entry.{File, Entry, file, new_file, resize, set_attr, set_size, name_of, attr_of}
use nfs.MemFs.Store.{Failure, panicked, lookup, push}
use nfs.MemFs.WellFormed.Push.{IsEmpty, push-IsWellFormed}
use nfs.MemFs.Service.{
  MemFs, next, push_and, same_verf, add_unless, add_changed, add_file, no_verf, create,
}
use nfs.MemFs.Service.Stored.{IsMemFs, set_attr-file}

-- A size that no vector has.
abbrev pub IsHuge : Option ℕ → Type 0
IsHuge size = (s : ℕ) × (size ≡ some s) × (2 ^ 63 ≤ s)

huge-panics : (size : Option ℕ) (f : File) → IsHuge size → (set_size size (file f)).0 ≡ none
unfolding resize
huge-panics none f (s, h, large) = absurd (cc)
huge-panics (some t) f (s, h, large) =
    let huge : ltb t (2 ^ 63) ≡ false = ground (arith, some-injective h refl, large) in rw huge refl

panics-IsHuge : (size : Option ℕ) (f : File) → (set_size size (file f)).0 ≡ none → IsHuge size
unfolding resize
panics-IsHuge none f h = absurd (cc)
panics-IsHuge (some s) f h = elim (Bool-cases (ltb s (2 ^ 63))) [
  | inl fits ↦ absurd (ground (arith, rw fits at h))
  | inr large ↦ (s, refl, ground arith)
]

module _ (m : MemFs) (v : IsMemFs m) where
  push_and-runs :
      {A : Type 0} (dirid : ℕ) (entry : Entry) (a : A)
      → IsEmpty entry
      → (push_and dirid entry a (next m)).0 ≢ err panicked
  push_and-runs dirid entry a empty =
      by_result (push dirid entry m.fs).0 refl
        (push-IsWellFormed m.fs dirid entry v.well_formed empty).1
    where
      by_result :
          (r : Result (Unit {0}) Failure)
          → (push dirid entry m.fs).0 ≡ r
          → ((push dirid entry m.fs).0 ≢ err panicked)
          → (push_and dirid entry a (next m)).0 ≢ err panicked
      by_result (ok done) h runs = rw (h, push_and) (λ e. ground arith)
      by_result (err e) h runs = rw (h, push_and) (λ q. runs (h ∙ cc))

  add_unless-runs :
      (dirid : ℕ) (f : Entry) (verf : Option (List ℕ)) (newid : ℕ) (r : Result Entry Nfsstat3)
      → IsEmpty f
      → (add_unless dirid f verf newid r (next m)).0 ≢ err panicked
  unfolding add_unless
  add_unless-runs dirid f verf newid (err nfs3err_noent) empty =
      push_and-runs dirid f (newid, attr_of f) empty
  add_unless-runs dirid f verf newid (ok existing) empty =
      elim (Bool-cases (same_verf verf existing)) [
        | inl again ↦ rw again (λ e. ground arith)
        | inr other ↦ rw other (λ e. ground arith)
      ]
  add_unless-runs dirid f verf newid (err e) empty = λ h. ground arith

  add_changed-panicked :
      (dirid newid : ℕ) (p : Option (Unit {0}) × Entry)
      → p.0 ≡ none
      → add_changed dirid none newid p (next m) ≡ (err panicked, next m)
  unfolding add_changed
  add_changed-panicked dirid newid (none, f) h = refl
  add_changed-panicked dirid newid (some _, f) h = absurd (cc)

  add_changed-panics :
      (dirid newid : ℕ) (p : Option (Unit {0}) × Entry)
      → IsEmpty p.1
      → (add_changed dirid none newid p (next m)).0 ≡ err panicked
      → p.0 ≡ none
  unfolding add_changed
  add_changed-panics dirid newid (none, f) empty h = refl
  add_changed-panics dirid newid (some _, f) empty h =
      absurd (add_unless-runs dirid f none newid (lookup m.fs dirid (name_of f)) empty h)

  -- On a file system that keeps its invariant, whatever the directory and the name are: `create` panics
  -- if it is to set a size of 2^63 or more, and then it has taken a handle and stored nothing; and it
  -- does not panic else.
  pub create-panicked :
      (now : Nfstime3) (dirid : ℕ) (filename : List ℕ) (sattr : Sattr3)
      → (IsHuge sattr.size → create m now dirid filename sattr ≡ (err panicked, next m))
        × ((create m now dirid filename sattr).0 ≡ err panicked → IsHuge sattr.size)
  unfolding create add_file add_changed set_attr
  create-panicked now dirid filename sattr =
      let (f, is_file, _, _) =
        set_attr-file now sattr (new_file now filename m.nextid [] no_verf) in
      (
        (λ huge.
            add_changed-panicked dirid m.nextid
              (set_attr now sattr (file (new_file now filename m.nextid [] no_verf)))
              (huge-panics sattr.size _ huge)),
        (λ h. panics-IsHuge sattr.size _ (
            add_changed-panics dirid m.nextid
              (set_attr now sattr (file (new_file now filename m.nextid [] no_verf)))
              (subst IsEmpty (sym is_file) tt) h)),
      )
