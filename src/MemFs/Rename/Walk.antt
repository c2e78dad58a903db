-- ===== src/MemFs/Rename/Walk.antt =====
-- The loop of `rename` in crates/nfs3_server/src/memfs/mod.rs that walks from the target directory to
-- the root: how many rounds suffice, and what it decides.
use nfs.Prelude.{
  ==→eq, ==→neq, neq→==, ℕ, zero, suc, ◌<◌, ◌≡◌, ◌≢◌, true, false, err, ok, ◌==◌, Bool-cases, ◌⊎◌,
  inl, inr, arith,
}
use mathlib.Core.Path.{subst}
use nfs.Nfs3.Status.{nfs3err_inval}
use nfs.MemFs.Entry.{Dir}
use nfs.MemFs.Store.{Fs, status}
use nfs.MemFs.Rename.{walk_to_root}
use nfs.MemFs.WellFormed.{IsDirAt}

-- `steps` parents lead from a directory to the root.
pub data RootIn (fs : Fs) : ℕ → ℕ → Type 0 where
  at_root : (id : ℕ) (d : Dir) → IsDirAt fs id d → id ≡ fs.root → RootIn fs id 0
  up :
      (id steps : ℕ) (d : Dir)
      → IsDirAt fs id d
      → id ≢ fs.root
      → RootIn fs d.parent steps
      → RootIn fs id (suc steps)

-- A directory is another one, or lies below it.
pub data Under (fs : Fs) (above : ℕ) : ℕ → Type 0 where
  itself : (id : ℕ) → id ≡ above → Under fs above id
  inside :
      (id : ℕ) (d : Dir)
      → IsDirAt fs id d
      → id ≢ fs.root
      → Under fs above d.parent
      → Under fs above id

same_dir : (fs : Fs) (id : ℕ) (d d' : Dir) → IsDirAt fs id d → IsDirAt fs id d' → d ≡ d'
same_dir fs id d d' p q = cc

not-Under :
    (fs : Fs) (above id : ℕ) (d : Dir)
    → IsDirAt fs id d
    → id ≢ above
    → ((id ≡ fs.root) ⊎ (Under fs above d.parent → ⊥))
    → Under fs above id
    → ⊥
not-Under fs above id d at_id other why (itself k e) = other e
not-Under fs above id d at_id other (inl root) (inside k d' p n u) = n root
not-Under fs above id d at_id other (inr none_above) (inside k d' p n u) =
    none_above (subst (λ x. Under fs above x.parent) (same_dir fs id d' d p at_id) u)

-- The loop ends, and refuses exactly the targets that are the moved directory or below it.
abbrev pub Decides : ℕ → Fs → ℕ → ℕ → Type 0
Decides fuel fs from_id current =
    ((walk_to_root fuel fs from_id current ≡ ok tt) × (Under fs from_id current → ⊥))
    ⊎ ((walk_to_root fuel fs from_id current ≡ err (status nfs3err_inval))
        × Under fs from_id current)

one_round :
    (fuel : ℕ) (fs : Fs) (from_id current steps : ℕ)
    → ((k parent : ℕ) → k < steps → RootIn fs parent k → Decides fuel fs from_id parent)
    → RootIn fs current steps
    → (current == from_id) ≡ false
    → Decides (suc fuel) fs from_id current
unfolding walk_to_root
one_round fuel fs from_id current steps ih (at_root id d at_id root) other =
    let here : (current == fs.root) ≡ true = ground arith in
    inl (
      rw (other, walk_to_root) (rw at_id (rw here)),
      not-Under fs from_id current d at_id (==→neq current from_id other) (inl root),
    )
one_round fuel fs from_id current steps ih (up id k d at_id below r) other =
    let here = neq→== current fs.root below in
    elim (ih k d.parent (omega arith) r) [
      | inl (done, n) ↦ inl (
        rw (other, walk_to_root) (rw at_id (rw here done)),
        not-Under fs from_id current d at_id (==→neq current from_id other) (inr n),
      )
      | inr (refused, u) ↦
          inr
            (rw (other, walk_to_root) (rw at_id (rw here refused)), inside current d at_id below u)
    ]

-- Where parents lead from the target to the root, more rounds than there are parents are enough for
-- the loop to end. It refuses the move exactly if the target is the moved directory or lies below it.
pub walk_to_root-Decides :
    (fuel : ℕ) (fs : Fs) (from_id current steps : ℕ)
    → RootIn fs current steps
    → steps < fuel
    → Decides fuel fs from_id current
unfolding walk_to_root
walk_to_root-Decides zero fs from_id current steps r h = absurd (omega arith)
walk_to_root-Decides (suc fuel) fs from_id current steps r h =
    elim (Bool-cases (current == from_id)) [
      | inl hit ↦ inr (rw (hit, walk_to_root), itself current (==→eq current from_id hit))
      | inr other ↦
          one_round fuel fs from_id current steps
            (λ k parent less r'. walk_to_root-Decides fuel fs from_id parent k r' (omega arith)) r
            other
    ]
