-- ===== src/MemFs/Sets.antt =====
-- The set of handles of a directory in crates/nfs3_server/src/memfs/mod.rs: membership after an
-- insertion and after a removal.
use nfs.Prelude.{ℕ, ◌≡◌, ◌≢◌, true, Bool-cases, ◌⊎◌, inl, inr, List, [], ◌∷◌, ◌++◌, ◌==◌, arith}
use nfs.MemFs.Entry.{contains, set_remove}

abbrev pub In : ℕ → List ℕ → Type 0
In i ids = contains i ids ≡ true

pub In-snoc : (i j : ℕ) (ids : List ℕ) → In i (ids ++ (j ∷ [])) → In i ids ⊎ (i ≡ j)
In-snoc i j [] h = inr (ground arith)
In-snoc i j (x ∷ ids) h = elim (Bool-cases (i == x)) [
  | inl e ↦ inl (ground arith)
  | inr e ↦ elim (In-snoc i j ids (ground arith)) [ inl l ↦ inl (ground arith) | inr r ↦ inr r ]
]

pub snoc-In : (i : ℕ) (ids : List ℕ) → In i (ids ++ (i ∷ []))
snoc-In i [] = ground arith
snoc-In i (x ∷ ids) = ground (arith, snoc-In i ids)

pub In-append : (i : ℕ) (ids more : List ℕ) → In i ids → In i (ids ++ more)
In-append i [] more h = cc
In-append i (x ∷ ids) more h = elim (Bool-cases (i == x)) [
  | inl e ↦ ground arith
  | inr e ↦ ground (arith, In-append i ids more (ground arith))
]

pub In-remove : (i j : ℕ) (ids : List ℕ) → In i (set_remove j ids) → In i ids × (i ≢ j)
In-remove i j [] h = cc
In-remove i j (x ∷ ids) h = elim (Bool-cases (j == x)) [
  | inl e ↦ let r = In-remove i j ids (ground arith) in (ground arith, r.1)
  | inr e ↦ elim (Bool-cases (i == x)) [
    | inl e' ↦ (ground arith, ground arith)
    | inr e' ↦ let r = In-remove i j ids (ground arith) in (ground arith, r.1)
  ]
]

pub remove-In : (i j : ℕ) (ids : List ℕ) → In i ids → i ≢ j → In i (set_remove j ids)
remove-In i j [] h n = cc
remove-In i j (x ∷ ids) h n = elim (Bool-cases (j == x)) [
  | inl e ↦ ground (arith, remove-In i j ids (ground arith) n)
  | inr e ↦ elim (Bool-cases (i == x)) [
    | inl e' ↦ ground arith
    | inr e' ↦ ground (arith, remove-In i j ids (ground arith) n)
  ]
]
