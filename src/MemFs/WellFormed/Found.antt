-- ===== src/MemFs/WellFormed/Found.antt =====
-- What `Fs::lookup` of crates/nfs3_server/src/memfs/mod.rs finds in a well-formed file system.
use nfs.Prelude.{
  bytes_eq, ℕ, ◌≡◌, ◌∙◌, ap, true, false, Option, some, List, [], ◌∷◌, ok, ok_or, >>=-eq-ok, ◌==◌,
  Bool-cases, Option-cases, inl, inr, arith,
}
use mathlib.Core.Path.{subst}
use nfs.Nfs3.Status.{nfs3err_noent}
use nfs.MemFs.Entry.{Entry, as_dir, name_of, fileid}
use nfs.MemFs.Store.{Fs, lookup, lookup_in, dot, dot_dot}
use nfs.MemFs.Sets.{In}
use nfs.MemFs.WellFormed.{IsDirAt, Member, IsWellFormed}
use nfs.MemFs.WellFormed.Target.{ok_or-ok, as_dir-ok}

-- An entry with the name, under a handle of the list.
record FoundIn (entries : ℕ → Option Entry) (filename ids : List ℕ) (e : Entry) : Type 0 where
  pub handle : ℕ
  pub among : In handle ids
  pub stored : entries handle ≡ some e
  pub named : bytes_eq (name_of e) filename ≡ true

lookup_in-FoundIn :
    (entries : ℕ → Option Entry) (filename ids : List ℕ) (e : Entry)
    → lookup_in entries filename ids ≡ ok e
    → FoundIn entries filename ids e
unfolding lookup_in
lookup_in-FoundIn entries filename [] e h = absurd (cc)
lookup_in-FoundIn entries filename (i ∷ ids) e h = elim (Option-cases (entries i)) [
  | inl missing ↦ let h' = rw (missing, lookup_in) at h in absurd (cc)
  | inr (f, found) ↦
      let h' = rw (found, lookup_in) at h in
      elim (Bool-cases (bytes_eq (name_of f) filename)) [
        | inl hit ↦
            let same : f ≡ e = cc in
            record {
              handle = i;
              among = ground arith;
              stored = found ∙ ap some same;
              named = subst (λ x. bytes_eq (name_of x) filename ≡ true) same hit;
            }
        | inr other ↦
            let r = lookup_in-FoundIn entries filename ids e (rw other at h') in
            record {
              handle = r.handle;
              among = elim (Bool-cases (r.handle == i)) [
                | inl x ↦ ground arith
                | inr x ↦ ground (arith, r.among)
              ];
              stored = r.stored;
              named = r.named;
            }
      ]
]

-- A name that is not `.` or `..` is found in the directory, under a handle that it holds.
pub record IsFound (fs : Fs) (dirid : ℕ) (filename : List ℕ) (e : Entry) : Type 0 where
  pub member : Member fs dirid (fileid e)
  pub stored : fs.entries (fileid e) ≡ some e
  pub named : bytes_eq (name_of e) filename ≡ true

pub lookup-IsFound :
    (fs : Fs) (dirid : ℕ) (filename : List ℕ) (e : Entry)
    → IsWellFormed fs
    → bytes_eq filename dot ≡ false
    → bytes_eq filename dot_dot ≡ false
    → lookup fs dirid filename ≡ ok e
    → IsFound fs dirid filename e
unfolding lookup
lookup-IsFound fs dirid filename e v not_dot not_dot_dot h =
    let (a, p, q) = >>=-eq-ok (ok_or (fs.entries dirid) nfs3err_noent) _ h in
    let (d, p', q') = >>=-eq-ok (as_dir a) _ q in
    let q'' = rw (not_dot, not_dot_dot) at q' in
    let r = lookup_in-FoundIn fs.entries filename d.content e q'' in
    let key : fileid e ≡ r.handle = v.keys r.handle e r.stored in
    let at_dirid : IsDirAt fs dirid d =
      ok_or-ok (fs.entries dirid) _ _ p ∙ ap some (as_dir-ok a d p') in
    record { member = (d, at_dirid, rw key r.among); stored = rw key r.stored; named = r.named }
