-- ===== src/MemFs/WellFormed/Change.antt =====
-- An entry of crates/nfs3_server/src/memfs/mod.rs that is put in place of another one of the same kind
-- and handle, which holds, in a directory, the same handles.
use nfs.Prelude.{
  ℕ, ◌≡◌, refl, ◌∙◌, sym, ap, some, ◌==◌, ==→eq, some-injective, Bool-cases, inl, inr, arith,
}
use mathlib.Core.Path.{subst}
use nfs.MemFs.Entry.{Dir, Entry, file, dir, fileid}
use nfs.MemFs.Store.{Fs, put}
use nfs.MemFs.Sets.{In}
use nfs.MemFs.WellFormed.{IsDirAt, Member, IsWellFormed}

-- The kind and the handles of a directory are kept.
abbrev pub Kept : Entry → Entry → Type 0
Kept (file f) (file f') = Unit
Kept (dir d) (dir d') = d'.content ≡ d.content
Kept _ _ = ⊥

before :
    (e e' : Entry) (d' : Dir)
    → Kept e e'
    → e' ≡ dir d'
    → (d : Dir) × (e ≡ dir d) × (d'.content ≡ d.content)
before (file f) (file f') d' k h = absurd (cc)
before (file f) (dir d) d' k h = absurd k
before (dir d) (file f') d' k h = absurd k
before (dir d) (dir d'') d' k h = (d, refl, ground arith)

after : (e e' : Entry) (d : Dir) → Kept e e' → e ≡ dir d → (d' : Dir) × (e' ≡ dir d')
after (file f) e' d k h = absurd (cc)
after (dir d'') (file f') d k h = absurd k
after (dir d'') (dir d') d k h = (d', refl)

module _ (fs : Fs) (id : ℕ) (e e' : Entry) (v : IsWellFormed fs) (at_id : fs.entries id ≡ some e)
    (same_id : fileid e' ≡ fileid e) (kept : Kept e e') where
  changed-Member : (p i : ℕ) → Member (put id e' fs) p i → Member fs p i
  changed-Member p i m = elim (Bool-cases (p == id)) [
    | inr other ↦ (m.0, rw other at m.1, m.2)
    | inl same ↦
        let h = rw same at m.1 in
        let (d, is_dir, content) = before e e' m.0 kept (some-injective refl h) in
        (
          d,
          ap fs.entries (==→eq p id same) ∙ at_id ∙ ap some is_dir,
          subst (λ x. In i x) content m.2,
        )
  ]

  changed-occupied :
      (k : ℕ)
      → (x : Entry) × (fs.entries k ≡ some x)
      → (x : Entry) × ((put id e' fs).entries k ≡ some x)
  changed-occupied k (x, h) = elim (Bool-cases (k == id)) [
    | inl same ↦ (e', rw same refl)
    | inr other ↦ (x, rw other h)
  ]

  changed-keys : (k : ℕ) (x : Entry) → (put id e' fs).entries k ≡ some x → fileid x ≡ k
  changed-keys k x h = elim (Bool-cases (k == id)) [
    | inl same ↦
        let h' = rw same at h in
        ap fileid (some-injective h' refl) ∙ same_id ∙ v.keys id e at_id ∙ sym (==→eq k id same)
    | inr other ↦ v.keys k x (rw other at h)
  ]

  changed-root : (d : Dir) × IsDirAt (put id e' fs) fs.root d
  changed-root = elim (Bool-cases (fs.root == id)) [
    | inr other ↦ (v.root_dir.0, rw other v.root_dir.1)
    | inl same ↦
        let is_root = ap fs.entries (sym (==→eq fs.root id same)) ∙ v.root_dir.1 in
        let (d', is_dir) = after e e' v.root_dir.0 kept (some-injective at_id is_root) in
        (d', rw same (ap some is_dir))
  ]

  pub changed-IsWellFormed : IsWellFormed (put id e' fs)
  changed-IsWellFormed = record {
    keys = changed-keys;
    closed = λ p i m. changed-occupied i (v.closed p i (changed-Member p i m));
    single = λ p q i m m'. v.single p q i (changed-Member p i m) (changed-Member q i m');
    not_root = λ p i m. v.not_root p i (changed-Member p i m);
    root_dir = changed-root;
  }
