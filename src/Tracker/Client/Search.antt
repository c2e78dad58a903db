-- ===== src/Tracker/Client/Search.antt =====
-- `find_transaction` of crates/nfs3_server/src/transaction_tracker.rs: its shortcuts at the end of
-- the deque agree with the search, and the search finds the xid or its place.
use Prim.Native.Nat.{compare, Ordering}
use nfs.Prelude.{
  compare-Compared, Compared, inr, inl, Option-cases, ℕ, zero, suc, ◌+◌, ◌-◌, ◌≤◌, ◌<◌, ◌≡◌, refl,
  none, some, List, [], ◌∷◌, Result, ok, err, length, arith, less, same, more, get_elem?, take,
  drop, All,
}
use nfs.Tracker.Client.{Transaction, back, binary_search, find_transaction}
use nfs.Tracker.Client.View.{SortedFrom}

back-ge :
    (lo : ℕ) (txs : List Transaction) (t : Transaction)
    → SortedFrom lo txs
    → back txs ≡ some t
    → lo ≤ t.xid
unfolding back
back-ge lo [] t s h = cc
back-ge lo (tx ∷ []) t s h = ground arith
back-ge lo (tx ∷ tx' ∷ txs) t s h = omega (arith, back-ge (tx.xid + 1) (tx' ∷ txs) t s.1 h)

-- The last transaction is the one that is sought, or comes before it.
search_last :
    (lo x i : ℕ) (txs : List Transaction) (t : Transaction)
    → SortedFrom lo txs
    → back txs ≡ some t
    → t.xid ≡ x
    → binary_search x i txs ≡ ok (i + length txs - 1)
unfolding back binary_search
search_last lo x i [] t s h e = cc
search_last lo x i (tx ∷ []) t s h e = ground arith
search_last lo x i (tx ∷ tx' ∷ txs) t s h e = ground (
  arith,
  search_last (tx.xid + 1) x (i + 1) (tx' ∷ txs) t s.1 h e,
  back-ge (tx.xid + 1) (tx' ∷ txs) t s.1 h,
)

search_past :
    (lo x i : ℕ) (txs : List Transaction) (t : Transaction)
    → SortedFrom lo txs
    → back txs ≡ some t
    → t.xid < x
    → binary_search x i txs ≡ err (i + length txs)
unfolding back binary_search
search_past lo x i [] t s h e = cc
search_past lo x i (tx ∷ []) t s h e = ground arith
search_past lo x i (tx ∷ tx' ∷ txs) t s h e = ground (
  arith,
  search_past (tx.xid + 1) x (i + 1) (tx' ∷ txs) t s.1 h e,
  back-ge (tx.xid + 1) (tx' ∷ txs) t s.1 h,
)

back-nil : (txs : List Transaction) → back txs ≡ none → txs ≡ []
unfolding back
back-nil [] h = refl
back-nil (tx ∷ []) h = cc
back-nil (tx ∷ tx' ∷ txs) h = absurd (ground (arith, back-nil (tx' ∷ txs) h))

-- On a sorted deque the shortcuts of `find_transaction` change nothing.
pub find_transaction-eq-search :
    (x : ℕ) (txs : List Transaction)
    → SortedFrom 0 txs
    → find_transaction x txs ≡ binary_search x 0 txs
unfolding find_transaction
find_transaction-eq-search x txs s = elim (Option-cases (back txs)) [
  | inl e ↦ rw (e, find_transaction) (rw (back-nil txs e))
  | inr (t, e) ↦
      rw (e, find_transaction)
        (ground (arith, search_last 0 x 0 txs t s e, search_past 0 x 0 txs t s e))
]

-- What a search for `x` tells of the transactions from the place `i` on.
abbrev pub Located : ℕ → ℕ → List Transaction → Result ℕ ℕ → Type 0
Located x i txs (ok p) =
    (i ≤ p)
    × (p < i + length txs)
    × (t : Transaction) × (get_elem? txs (p - i) ≡ some t)
    × (t.xid ≡ x)
Located x i txs (err p) =
    (i ≤ p)
    × (p ≤ i + length txs)
    × All (λ t. t.xid < x) (take (p - i) txs)
    × All (λ t. x < t.xid) (drop (p - i) txs)

SortedFrom-above :
    (lo x : ℕ) (txs : List Transaction) → x < lo → SortedFrom lo txs → All (λ t. x < t.xid) txs
SortedFrom-above lo x [] h s = tt
SortedFrom-above lo x (tx ∷ txs) h s =
    (omega arith, SortedFrom-above (tx.xid + 1) x txs (omega arith) s.1)

Located-cons :
    (x i : ℕ) (tx : Transaction) (txs : List Transaction) (r : Result ℕ ℕ)
    → tx.xid < x
    → Located x (i + 1) txs r
    → Located x i (tx ∷ txs) r
Located-cons x i tx txs (ok p) h (l, u, t, at, e) =
    let step : p - i ≡ suc (p - (i + 1)) = omega arith in
    (omega arith, omega arith, t, rw step at, e)
Located-cons x i tx txs (err p) h (l, u, before, after) =
    let step : p - i ≡ suc (p - (i + 1)) = omega arith in
    (omega arith, omega arith, rw step (h, before), rw step after)

search-Located :
    (lo x i : ℕ) (txs : List Transaction)
    → SortedFrom lo txs
    → Located x i txs (binary_search x i txs)
unfolding binary_search
search-Located lo x i [] s = (omega arith, omega arith, none_before (i - i), none_after (i - i))
  where
    none_before : (n : ℕ) → All {A = Transaction} (λ t. t.xid < x) (take n [])
    none_before zero = tt
    none_before (suc n) = tt

    none_after : (n : ℕ) → All {A = Transaction} (λ t. x < t.xid) (drop n [])
    none_after zero = tt
    none_after (suc n) = tt
search-Located lo x i (tx ∷ txs) s =
    at_head (compare tx.xid x) (compare-Compared tx.xid x)
      (search-Located (tx.xid + 1) x (i + 1) txs s.1)
  where
    at_head :
        (o : Ordering)
        → Compared tx.xid x o
        → Located x (i + 1) txs (binary_search x (i + 1) txs)
        → Located x i (tx ∷ txs) (elim o [
          | Ordering.lt ↦ binary_search x (i + 1) txs
          | Ordering.eq ↦ ok i
          | Ordering.gt ↦ err i
        ])
    at_head Ordering.lt (less h) later = Located-cons x i tx txs _ h later
    at_head Ordering.eq (same e) later =
        let step : i - i ≡ 0 = omega arith in (omega arith, omega arith, tx, rw step refl, e)
    at_head Ordering.gt (more h) later =
        let step : i - i ≡ 0 = omega arith in
        (
          omega arith,
          omega arith,
          rw step tt,
          rw step (h, SortedFrom-above (tx.xid + 1) x txs (omega arith) s.1),
        )

-- On a sorted deque `find_transaction` returns the place of the xid; or, if no transaction has it,
-- the place that has the smaller xids before it and the greater ones behind it.
pub find_transaction-Located :
    (x : ℕ) (txs : List Transaction) → SortedFrom 0 txs → Located x 0 txs (find_transaction x txs)
find_transaction-Located x txs s =
    rw (find_transaction-eq-search x txs s) (search-Located 0 x 0 txs s)
