-- ===== src/Tracker/Client/View.antt =====
-- What the proofs about crates/nfs3_server/src/transaction_tracker.rs speak of: order by xid, and
-- the transactions in progress.
use nfs.Prelude.{
  ℕ, zero, suc, ◌+◌, ◌≤◌, ◌<◌, ◌^◌, ◌≡◌, refl, Bool, true, false, List, [], ◌∷◌, ◌==◌,
  if◌then◌else◌, arith,
}
use nfs.Tracker.Client.{
  TransactionState, Transaction, in_progress, completed, started, insert_at, trim_if_needed,
  drop_stale, ClientTransactions,
}

-- The xids rise, from `lo` on.
abbrev pub SortedFrom : ℕ → List Transaction → Type 0
SortedFrom lo [] = Unit
SortedFrom lo (tx ∷ txs) = (lo ≤ tx.xid) × SortedFrom (tx.xid + 1) txs

abbrev pub is_running : TransactionState → Bool
is_running in_progress = true
is_running (completed _) = false

-- How many transactions are in progress, in all and with one xid; and how many have the xid.
abbrev pub active : List Transaction → ℕ
active [] = 0
active (tx ∷ txs) = (if is_running tx.state then 1 else 0) + active txs

abbrev pub running : ℕ → List Transaction → ℕ
running x [] = 0
running x (tx ∷ txs) =
    (if tx.xid == x then (if is_running tx.state then 1 else 0) else 0) + running x txs

abbrev pub known : ℕ → List Transaction → ℕ
known x [] = 0
known x (tx ∷ txs) = (if tx.xid == x then 1 else 0) + known x txs

pub record IsValid (c : ClientTransactions) : Type 0 where
  pub sorted : SortedFrom 0 c.transactions
  pub counted : c.active_transactions ≡ active c.transactions
  pub bounded : c.active_transactions ≤ c.max_active_transactions
  pub limits : c.max_active_transactions < c.trim_limit
  pub word : c.max_active_transactions < 2 ^ 16

pub SortedFrom-le :
    (lo lo' : ℕ) (txs : List Transaction) → lo' ≤ lo → SortedFrom lo txs → SortedFrom lo' txs
SortedFrom-le lo lo' [] h s = tt
SortedFrom-le lo lo' (tx ∷ txs) h s = (omega arith, s.1)

pub known-below : (lo x : ℕ) (txs : List Transaction) → SortedFrom lo txs → x < lo → known x txs ≡ 0
known-below lo x [] s h = refl
known-below lo x (tx ∷ txs) s h = ground (arith, known-below (tx.xid + 1) x txs s.1)

pub known-le-one : (lo x : ℕ) (txs : List Transaction) → SortedFrom lo txs → known x txs ≤ 1
known-le-one lo x [] s = omega arith
known-le-one lo x (tx ∷ txs) s =
    ground (arith, known-le-one (tx.xid + 1) x txs s.1, known-below (tx.xid + 1) x txs s.1)

pub running-le-known : (x : ℕ) (txs : List Transaction) → running x txs ≤ known x txs
running-le-known x [] = omega arith
running-le-known x (tx ∷ txs) = ground (arith, running-le-known x txs)

pub running-le-active : (x : ℕ) (txs : List Transaction) → running x txs ≤ active txs
running-le-active x [] = omega arith
running-le-active x (tx ∷ txs) = ground (arith, running-le-active x txs)

-- An insertion adds one transaction in progress, wherever it goes.
pub running-insert_at :
    (y x k : ℕ) (txs : List Transaction)
    → running y (insert_at k (started x) txs) ≡ (if x == y then 1 else 0) + running y txs
unfolding insert_at started
running-insert_at y x zero txs = refl
running-insert_at y x (suc k) [] = refl
running-insert_at y x (suc k) (tx ∷ txs) = omega (arith, running-insert_at y x k txs)

pub active-insert_at :
    (x k : ℕ) (txs : List Transaction) → active (insert_at k (started x) txs) ≡ 1 + active txs
unfolding insert_at started
active-insert_at x zero txs = refl
active-insert_at x (suc k) [] = refl
active-insert_at x (suc k) (tx ∷ txs) = omega (arith, active-insert_at x k txs)

-- Trimming and dropping keep the order and what is in progress.
module _ (limit : ℕ) where
  pub SortedFrom-trim :
      (lo : ℕ) (txs : List Transaction)
      → SortedFrom lo txs
      → SortedFrom lo (trim_if_needed limit txs)
  unfolding trim_if_needed
  SortedFrom-trim lo [] s = tt
  SortedFrom-trim lo (tx ∷ txs) s = ground (
    arith,
    SortedFrom-trim (tx.xid + 1) txs s.1,
    SortedFrom-le (tx.xid + 1) lo (trim_if_needed limit txs),
  )

  pub running-trim :
      (x : ℕ) (txs : List Transaction) → running x (trim_if_needed limit txs) ≡ running x txs
  unfolding trim_if_needed
  running-trim x [] = refl
  running-trim x (tx ∷ txs) = ground (arith, running-trim x txs)

  pub active-trim : (txs : List Transaction) → active (trim_if_needed limit txs) ≡ active txs
  unfolding trim_if_needed
  active-trim [] = refl
  active-trim (tx ∷ txs) = ground (arith, active-trim txs)

module _ (now max_age : ℕ) where
  pub SortedFrom-drop_stale :
      (lo : ℕ) (txs : List Transaction)
      → SortedFrom lo txs
      → SortedFrom lo (drop_stale now max_age txs)
  unfolding drop_stale
  SortedFrom-drop_stale lo [] s = tt
  SortedFrom-drop_stale lo (tx ∷ txs) s = ground (
    arith,
    SortedFrom-drop_stale (tx.xid + 1) txs s.1,
    SortedFrom-le (tx.xid + 1) lo (drop_stale now max_age txs),
  )

  pub running-drop_stale :
      (x : ℕ) (txs : List Transaction) → running x (drop_stale now max_age txs) ≡ running x txs
  unfolding drop_stale
  running-drop_stale x [] = refl
  running-drop_stale x (tx ∷ txs) = ground (arith, running-drop_stale x txs)

  pub active-drop_stale :
      (txs : List Transaction) → active (drop_stale now max_age txs) ≡ active txs
  unfolding drop_stale
  active-drop_stale [] = refl
  active-drop_stale (tx ∷ txs) = ground (arith, active-drop_stale txs)
