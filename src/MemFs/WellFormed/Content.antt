-- ===== src/MemFs/WellFormed/Content.antt =====
-- A directory of crates/nfs3_server/src/memfs/mod.rs whose set of handles changes, as in `Fs::rename`:
-- what the invariant asks of the handles that are new in it.
use nfs.Prelude.{==→eq, ℕ, ◌≡◌, ◌≢◌, refl, ◌∙◌, sym, ap, some, ◌==◌, Bool-cases, ◌⊎◌, inl, inr}
use mathlib.Core.Path.{subst}
use nfs.MemFs.Entry.{Dir, Entry, dir, fileid}
use nfs.MemFs.Store.{Fs, put}
use nfs.MemFs.Sets.{In}
use nfs.MemFs.WellFormed.{IsDirAt, Member, IsWellFormed}

-- A handle that is in use, not the root, and in no directory.
pub record IsFree (fs : Fs) (i : ℕ) : Type 0 where
  pub occupied : (e : Entry) × (fs.entries i ≡ some e)
  pub not_root : i ≢ fs.root
  pub nowhere : (p : ℕ) → Member fs p i → ⊥

module _ (fs : Fs) (id : ℕ) (d d' : Dir) (v : IsWellFormed fs) (at_id : IsDirAt fs id d)
    (same_id : d'.attr.fileid ≡ d.attr.fileid)
    (adds : (i : ℕ) → In i d'.content → In i d.content ⊎ IsFree fs i) where
  abbrev changed : Fs
  changed = put id (dir d') fs

  changed-Member : (p i : ℕ) → Member changed p i → Member fs p i ⊎ ((p ≡ id) × IsFree fs i)
  changed-Member p i m = elim (Bool-cases (p == id)) [
    | inr other ↦ inl (m.0, rw other at m.1, m.2)
    | inl same ↦
        let h = rw same at m.1 in
        let as_content : m.0.content ≡ d'.content = cc in
        elim (adds i (subst (λ x. In i x) as_content m.2)) [
          | inl old ↦ inl (d, ap fs.entries (==→eq p id same) ∙ at_id, old)
          | inr free ↦ inr (==→eq p id same, free)
        ]
  ]

  changed-occupied :
      (k : ℕ) → (e : Entry) × (fs.entries k ≡ some e) → (e : Entry) × (changed.entries k ≡ some e)
  changed-occupied k (e, h) = elim (Bool-cases (k == id)) [
    | inl same ↦ (dir d', rw same refl)
    | inr other ↦ (e, rw other h)
  ]

  changed-keys : (k : ℕ) (e : Entry) → changed.entries k ≡ some e → fileid e ≡ k
  changed-keys k e h = elim (Bool-cases (k == id)) [
    | inr other ↦ v.keys k e (rw other at h)
    | inl same ↦
        let h' = rw same at h in
        let as_dir : dir d' ≡ e = cc in
        ap fileid (sym as_dir) ∙ same_id ∙ v.keys id (dir d) at_id ∙ sym (==→eq k id same)
  ]

  changed-single :
      (p q i : ℕ)
      → Member fs p i ⊎ ((p ≡ id) × IsFree fs i)
      → Member fs q i ⊎ ((q ≡ id) × IsFree fs i)
      → p ≡ q
  changed-single p q i (inl m) (inl m') = v.single p q i m m'
  changed-single p q i (inl m) (inr (e, free)) = absurd (free.nowhere p m)
  changed-single p q i (inr (e, free)) (inl m) = absurd (free.nowhere q m)
  changed-single p q i (inr (e, free)) (inr (e', free')) = e ∙ sym e'

  changed-not_root : (p i : ℕ) → Member fs p i ⊎ ((p ≡ id) × IsFree fs i) → i ≢ fs.root
  changed-not_root p i (inl m) = v.not_root p i m
  changed-not_root p i (inr (e, free)) = free.not_root

  changed-closed :
      (p i : ℕ) → Member fs p i ⊎ ((p ≡ id) × IsFree fs i) → (e : Entry) × (fs.entries i ≡ some e)
  changed-closed p i (inl m) = v.closed p i m
  changed-closed p i (inr (e, free)) = free.occupied

  changed-root : (r : Dir) × IsDirAt changed fs.root r
  changed-root = elim (Bool-cases (fs.root == id)) [
    | inl same ↦ (d', rw same refl)
    | inr other ↦ (v.root_dir.0, rw other v.root_dir.1)
  ]

  -- Where the new handles are free, the invariant is kept.
  pub content-IsWellFormed : IsWellFormed changed
  content-IsWellFormed = record {
    keys = changed-keys;
    closed = λ p i m. changed-occupied i (changed-closed p i (changed-Member p i m));
    single = λ p q i m m'. changed-single p q i (changed-Member p i m) (changed-Member q i m');
    not_root = λ p i m. changed-not_root p i (changed-Member p i m);
    root_dir = changed-root;
  }
