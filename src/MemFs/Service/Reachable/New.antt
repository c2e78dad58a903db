-- ===== src/MemFs/Service/Reachable/New.antt =====
-- The file system that `MemFs::new` of crates/nfs3_server/src/memfs/mod.rs makes of a configuration.
use nfs.Prelude.{
  suc, ℕ, ◌+◌, ◌^◌, ◌<◌, ◌≤◌, length, ◌≡◌, ap, none, List, [], ◌∷◌, Result, ok, err, Bool-cases,
  inl, inr, arith,
}
use mathlib.Core.Path.{subst}
use nfs.Nfs3.Status.{Nfsstat3}
use nfs.Nfs3.Attributes.{Nfstime3}
use nfs.MemFs.Store.{Failure}
use nfs.MemFs.Service.{MemFs, add_dir, default_attr, add_file}
use nfs.MemFs.Service.Stored.{IsMemFs}
use nfs.MemFs.Service.Reachable.{Advances, add_file-Advances, add_dir-Advances}
use nfs.MemFs.Served.{MemFsConfigEntry, add_entries, add_entry, added}
use nfs.MemFs.Service.{path_to_id, Outcome}

-- If the loop goes on behind an entry, it goes on from the state that adding the entry left.
added-rest :
    {A : Type 0} (o : Outcome A) (rest : MemFs → Result MemFs Failure) (m' : MemFs)
    → added o rest ≡ ok m'
    → rest o.1 ≡ ok m'
added-rest (ok a, m) rest m' h = h
added-rest (err e, m) rest m' h = absurd (cc)

-- The invariant holds, and each entry has taken one handle at most.
abbrev Made : MemFs → ℕ → MemFs → Type 0
Made m n m' = IsMemFs m' × (m'.nextid ≤ m.nextid + n)

-- What is known of the rest of the loop.
abbrev RestMade : ℕ → MemFs → (MemFs → Result MemFs Failure) → Type 0
RestMade n m' rest = (m : MemFs) → IsMemFs m → m.nextid + n < 2 ^ 64 → rest m ≡ ok m' → Made m n m'

added-Made :
    {A : Type 0} (n : ℕ) (m m' : MemFs) (o : Outcome A) (rest : MemFs → Result MemFs Failure)
    → RestMade n m' rest
    → m.nextid + suc n < 2 ^ 64
    → Advances m o.1
    → added o rest ≡ ok m'
    → Made m (suc n) m'
added-Made n m m' o rest rest_made fits (v, grown) h =
    let (v', grown') = rest_made o.1 v (omega arith) (added-rest o rest m' h) in
    (v', omega (arith, grown, grown'))

add_entry-Made :
    (now : Nfstime3) (entry : MemFsConfigEntry) (n : ℕ) (m m' : MemFs)
    (rest : MemFs → Result MemFs Failure)
    → RestMade n m' rest
    → IsMemFs m
    → m.nextid + suc n < 2 ^ 64
    → (r : Result ℕ Nfsstat3) → add_entry now entry m rest r ≡ ok m'
    → Made m (suc n) m'
add_entry-Made now entry n m m' rest rest_made v fits (err e) h = absurd (cc)
add_entry-Made now entry n m m' rest rest_made v fits (ok id) h = elim (Bool-cases entry.is_dir) [
  | inl is_dir ↦
      added-Made n m m' (add_dir now id entry.name m) rest rest_made fits
        (add_dir-Advances m v (omega arith) now id entry.name) (rw is_dir at h)
  | inr is_file ↦
      added-Made n m m' (add_file now id entry.name default_attr entry.content none m) rest
        rest_made fits
        (add_file-Advances m v (omega arith) now id entry.name default_attr entry.content none)
        (rw is_file at h)
]

pub add_entries-Made :
    (now : Nfstime3) (entries : List MemFsConfigEntry) (m m' : MemFs)
    → IsMemFs m
    → m.nextid + length entries < 2 ^ 64
    → add_entries now entries m ≡ ok m'
    → Made m (length entries) m'
unfolding add_entries
add_entries-Made now [] m m' v fits h =
    let same : m ≡ m' = cc in (subst IsMemFs same v, omega (arith, ap (λ x. x.nextid) same))
add_entries-Made now (entry ∷ entries) m m' v fits h =
    add_entry-Made now entry (length entries) m m' (add_entries now entries)
      (λ m1 v1. add_entries-Made now entries m1 m' v1) v fits (path_to_id entry.parent m) h
