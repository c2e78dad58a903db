-- ===== src/MemFs/WellFormed/Push.antt =====
-- `Fs::push` of crates/nfs3_server/src/memfs/mod.rs, and the invariant of the file system through
-- it.
use nfs.Prelude.{
  ==→eq, ℕ, ◌≡◌, ◌≢◌, refl, ◌∙◌, sym, ap, false, Option, none, some, List, [], ◌∷◌, ◌++◌, ok, err,
  ◌==◌, Bool-cases, Option-cases, ◌⊎◌, inl, inr, arith,
}
use mathlib.Core.Path.{subst}
use nfs.MemFs.Entry.{contains, Dir, Entry, file, dir, fileid}
use nfs.MemFs.Store.{panicked, Fs, put, forget, push_to, push}
use nfs.MemFs.Sets.{In, In-snoc}
use nfs.MemFs.WellFormed.{IsDirAt, Member, IsWellFormed, IsWellFormed-same}

-- An entry with nothing in it.
abbrev pub IsEmpty : Entry → Type 0
IsEmpty (file f) = Unit
IsEmpty (dir d) = d.content ≡ []

abbrev pub with_child : Dir → ℕ → Dir
with_child d id = record d { content = d.content ++ (id ∷ []) }

-- The file system with the entry in it and in the directory `d`, its parent.
abbrev pub linked : ℕ → Dir → Entry → Fs → Fs
linked parent d entry fs =
    put parent (dir (with_child d (fileid entry))) (put (fileid entry) entry fs)

nothing-In : (i : ℕ) (ids : List ℕ) → ids ≡ [] → In i ids → ⊥
nothing-In i ids e h = ground arith

module _ (fs : Fs) (parent : ℕ) (entry : Entry) (v : IsWellFormed fs) (empty : IsEmpty entry) where
  -- A handle that is not in use is in no directory.
  not-Member : fs.entries (fileid entry) ≡ none → (p : ℕ) → Member fs p (fileid entry) → ⊥
  not-Member vacant p m = let (e, h) = v.closed p (fileid entry) m in ground arith

  restored :
      fs.entries (fileid entry) ≡ none
      → (k : ℕ) → (forget (fileid entry) (put (fileid entry) entry fs)).entries k ≡ fs.entries k
  restored vacant k = elim (Bool-cases (k == fileid entry)) [
    | inl same ↦ ground arith
    | inr other ↦ ground arith
  ]

  put-Member : (p i : ℕ) → Member (put (fileid entry) entry fs) p i → Member fs p i
  put-Member p i m = elim (Bool-cases (p == fileid entry)) [
    | inr other ↦ (m.0, rw other at m.1, m.2)
    | inl same ↦
        let e = rw same at m.1 in
        let as_entry : entry ≡ dir m.0 = cc in
        let nothing : m.0.content ≡ [] = subst IsEmpty as_entry empty in
        absurd (nothing-In i m.0.content nothing m.2)
  ]

  put-keys : (k : ℕ) (e : Entry) → (put (fileid entry) entry fs).entries k ≡ some e → fileid e ≡ k
  put-keys k e h = elim (Bool-cases (k == fileid entry)) [
    | inr other ↦ v.keys k e (rw other at h)
    | inl same ↦
        let h' = rw same at h in
        let as_entry : entry ≡ e = cc in
        ap fileid (sym as_entry) ∙ sym (==→eq k (fileid entry) same)
  ]

  -- The directory that the entry goes into.
  module _ (vacant : fs.entries (fileid entry) ≡ none) (d : Dir)
      (at_parent : IsDirAt (put (fileid entry) entry fs) parent d) where
    absent : contains (fileid entry) d.content ≡ false
    absent = elim (Bool-cases (contains (fileid entry) d.content)) [
      | inr n ↦ n
      | inl y ↦
          absurd (not-Member vacant parent (put-Member parent (fileid entry) (d, at_parent, y)))
    ]

    linked-Member :
        (p i : ℕ)
        → Member (linked parent d entry fs) p i
        → Member fs p i ⊎ ((p ≡ parent) × (i ≡ fileid entry))
    linked-Member p i m = elim (Bool-cases (p == parent)) [
      | inr other ↦ inl (put-Member p i (m.0, rw other at m.1, m.2))
      | inl same ↦
          let e = rw same at m.1 in
          let e' = ==→eq p parent same in
          let as_content : m.0.content ≡ d.content ++ (fileid entry ∷ []) = cc in
          let c : In i (d.content ++ (fileid entry ∷ [])) = subst (λ x. In i x) as_content m.2 in
          elim (In-snoc i (fileid entry) d.content c) [
            | inl old ↦ inl (put-Member p i (d, rw e' at_parent, old))
            | inr new ↦ inr (e', new)
          ]
    ]

    linked-keys : (k : ℕ) (e : Entry) → (linked parent d entry fs).entries k ≡ some e → fileid e ≡ k
    linked-keys k e h = elim (Bool-cases (k == parent)) [
      | inr other ↦ put-keys k e (rw other at h)
      | inl same ↦
          let h' = rw same at h in
          let as_dir : dir (with_child d (fileid entry)) ≡ e = cc in
          ap fileid (sym as_dir) ∙ put-keys parent (dir d) at_parent ∙ sym (==→eq k parent same)
    ]

    linked-occupied :
        (k : ℕ)
        → (k ≡ fileid entry) ⊎ ((e : Entry) × (fs.entries k ≡ some e))
        → (e : Entry) × ((linked parent d entry fs).entries k ≡ some e)
    linked-occupied k h = elim (Bool-cases (k == parent)) [
      | inl same ↦ (dir (with_child d (fileid entry)), rw same refl)
      | inr other ↦ elim (Bool-cases (k == fileid entry)) [
        | inl new ↦ (entry, rw other (rw new refl))
        | inr old ↦ elim h [
          | inl e ↦ absurd (ground arith)
          | inr (e, at_k) ↦ (e, rw other (rw old at_k))
        ]
      ]
    ]

    linked-root : (d' : Dir) × IsDirAt (linked parent d entry fs) fs.root d'
    linked-root =
        let (d', at_root) = v.root_dir in
        elim (Bool-cases (fs.root == parent)) [
          | inl same ↦ (with_child d (fileid entry), rw same refl)
          | inr other ↦ elim (Bool-cases (fs.root == fileid entry)) [
            | inl new ↦ absurd (ground arith)
            | inr old ↦ (d', rw other (rw old at_root))
          ]
        ]

    linked-IsWellFormed : IsWellFormed (linked parent d entry fs)
    linked-IsWellFormed = record {
      keys = linked-keys;
      closed = λ p i m. elim (linked-Member p i m) [
        | inl old ↦ linked-occupied i (inr (v.closed p i old))
        | inr new ↦ linked-occupied i (inl new.1)
      ];
      single = λ p q i m m'. elim (linked-Member p i m) [
        | inl old ↦ elim (linked-Member q i m') [
          | inl old' ↦ v.single p q i old old'
          | inr new' ↦ absurd (not-Member vacant p (subst (λ x. Member fs p x) new'.1 old))
        ]
        | inr new ↦ elim (linked-Member q i m') [
          | inl old' ↦ absurd (not-Member vacant q (subst (λ x. Member fs q x) new.1 old'))
          | inr new' ↦ new.0 ∙ sym new'.0
        ]
      ];
      not_root = λ p i m. elim (linked-Member p i m) [
        | inl old ↦ v.not_root p i old
        | inr new ↦ λ e. let (d, at_root) = v.root_dir in ground arith
      ];
      root_dir = linked-root;
    }

  -- What `push` makes of each parent.
  pushed :
      fs.entries (fileid entry) ≡ none
      → (o : Option Entry) → (put (fileid entry) entry fs).entries parent ≡ o
      → IsWellFormed (push_to parent (fileid entry) (put (fileid entry) entry fs) o).1
        × ((push_to parent (fileid entry) (put (fileid entry) entry fs) o).0 ≢ err panicked)
  unfolding push_to
  pushed vacant none h = (IsWellFormed-same fs _ (restored vacant) refl v, λ e. ground arith)
  pushed vacant (some (file f)) h =
      (IsWellFormed-same fs _ (restored vacant) refl v, λ e. ground arith)
  pushed vacant (some (dir d)) h =
      rw (absent vacant d h) (linked-IsWellFormed vacant d h, λ e. ground arith)

  -- `push` keeps the invariant, whatever it returns, and it does not panic: a handle that has no entry
  -- is in no directory.
  pub push-IsWellFormed :
      IsWellFormed (push parent entry fs).1 × ((push parent entry fs).0 ≢ err panicked)
  unfolding push
  push-IsWellFormed = elim (Option-cases (fs.entries (fileid entry))) [
    | inr (e, occupied) ↦ rw (occupied, push) (v, λ e. ground arith)
    | inl vacant ↦
        rw (vacant, push) (pushed vacant ((put (fileid entry) entry fs).entries parent) refl)
  ]

  -- With an unused handle and a directory as its parent, an entry is stored and linked.
  pub push-linked :
      (d : Dir)
      → fs.entries (fileid entry) ≡ none
      → IsDirAt fs parent d
      → push parent entry fs ≡ (ok tt, linked parent d entry fs)
  unfolding push push_to
  push-linked d vacant h =
      let at_parent : IsDirAt (put (fileid entry) entry fs) parent d =
        elim (Bool-cases (parent == fileid entry)) [
          | inl same ↦ absurd (ground arith)
          | inr other ↦ rw other h
        ] in
      rw (vacant, push) (rw (at_parent, push_to) (rw (absent vacant d at_parent)))
