-- ===== src/MemFs/WellFormed.antt =====
-- The invariant of `Fs` in crates/nfs3_server/src/memfs/mod.rs: its map and the sets of handles of its
-- directories fit together.
pub mod Push
pub mod Target
pub mod Remove
pub mod Change
pub mod Content
pub mod Found
use nfs.Prelude.{
  sym, ap, ◌∙◌, ℕ, ◌≡◌, ◌≢◌, refl, true, false, Option, none, some, List, [], ◌==◌, Bool-cases, inl,
  inr, arith, if◌then◌else◌,
}
use nfs.Nfs3.Attributes.{Nfstime3}
use nfs.MemFs.Entry.{contains, Dir, Entry, file, dir, fileid, new_dir}
use nfs.MemFs.Store.{Fs, new}
use nfs.MemFs.Sets.{In}

-- A directory of the file system.
abbrev pub IsDirAt : Fs → ℕ → Dir → Type 0
IsDirAt fs id d = fs.entries id ≡ some (dir d)

-- A handle in a directory.
abbrev pub Member : Fs → ℕ → ℕ → Type 0
Member fs p i = (d : Dir) × IsDirAt fs p d × In i d.content

-- Every entry stands under its own handle; every handle in a directory has an entry, is in no other
-- directory and is not the root; and the root is a directory.
pub record IsWellFormed (fs : Fs) : Type 0 where
  pub keys : (id : ℕ) (e : Entry) → fs.entries id ≡ some e → fileid e ≡ id
  pub closed : (p i : ℕ) → Member fs p i → (e : Entry) × (fs.entries i ≡ some e)
  pub single : (p q i : ℕ) → Member fs p i → Member fs q i → p ≡ q
  pub not_root : (p i : ℕ) → Member fs p i → i ≢ fs.root
  pub root_dir : (d : Dir) × IsDirAt fs fs.root d

-- The file system that `Fs::new` makes.
pub new-IsWellFormed : (now : Nfstime3) → IsWellFormed (new now)
unfolding new new_dir
new-IsWellFormed now = record {
  keys = λ id e h. elim (Bool-cases (id == 1)) [ inl y ↦ ground arith | inr n ↦ ground arith ];
  closed = λ p i m. absurd (no_member p i m);
  single = λ p q i m m'. absurd (no_member p i m);
  not_root = λ p i m. absurd (no_member p i m);
  root_dir = (_, refl);
}
  where
    no_member : (p i : ℕ) → Member (new now) p i → ⊥
    no_member p i m = elim (Bool-cases (p == 1)) [ inl y ↦ ground arith | inr n ↦ ground arith ]

-- The invariant reads the map and the root only.
pub IsWellFormed-same :
    (fs fs' : Fs)
    → ((k : ℕ) → fs'.entries k ≡ fs.entries k)
    → fs'.root ≡ fs.root
    → IsWellFormed fs
    → IsWellFormed fs'
IsWellFormed-same fs fs' same root v = record {
  keys = λ id e h. v.keys id e (sym (same id) ∙ h);
  closed = λ p i m. let (e, h) = v.closed p i (back p i m) in (e, same i ∙ h);
  single = λ p q i m m'. v.single p q i (back p i m) (back q i m');
  not_root = λ p i m e. v.not_root p i (back p i m) (e ∙ root);
  root_dir = (v.root_dir.0, same fs'.root ∙ ap fs.entries root ∙ v.root_dir.1);
}
  where
    back : (p i : ℕ) → Member fs' p i → Member fs p i
    back p i m = (m.0, sym (same p) ∙ m.1, m.2)
