-- ===== src/Tracker/Client/Update.antt =====
-- What an insertion and a completion at the place that the search found do to the deque of
-- crates/nfs3_server/src/transaction_tracker.rs.
use Prim.Native.Nat.{compare, Ordering}
use nfs.Prelude.{
  ℕ, suc, ◌+◌, ◌-◌, ◌≤◌, ◌<◌, ◌≡◌, ◌≢◌, true, refl, some, List, [], ◌∷◌, Result, ok, err, arith,
  Compared, less, same, more, compare-Compared,
}
use nfs.Tracker.Client.{
  Transaction, binary_search, insert_at, started, complete_at, complete, completed,
}
use nfs.Tracker.Client.View.{
  SortedFrom, is_running, active, running, known, known-below, running-le-known,
}

-- The result `r` of a search for `x` from the place `i` on: either `x` is known once, or it is not
-- known and goes in at the place.
abbrev pub Placed : ℕ → ℕ → ℕ → List Transaction → Result ℕ ℕ → Type 0
Placed lo x i txs (ok p) = (i ≤ p) × (known x txs ≡ 1)
Placed lo x i txs (err p) =
    (i ≤ p) × (known x txs ≡ 0) × SortedFrom lo (insert_at (p - i) (started x) txs)

Placed-cons :
    (lo x i : ℕ) (tx : Transaction) (txs : List Transaction) (r : Result ℕ ℕ)
    → lo ≤ tx.xid
    → tx.xid < x
    → Placed (tx.xid + 1) x (i + 1) txs r
    → Placed lo x i (tx ∷ txs) r
unfolding insert_at
Placed-cons lo x i tx txs (ok p) h l (b, k) = (omega arith, ground (arith))
Placed-cons lo x i tx txs (err p) h l (b, k, s) =
    let step : p - i ≡ suc (p - (i + 1)) = omega arith in
    (omega arith, ground (arith), rw step (h, s))

pub search-Placed :
    (lo x i : ℕ) (txs : List Transaction)
    → lo ≤ x
    → SortedFrom lo txs
    → Placed lo x i txs (binary_search x i txs)
unfolding binary_search insert_at started
search-Placed lo x i [] h s =
    let step : i - i ≡ 0 = omega arith in (omega arith, refl, rw step (h, tt))
search-Placed lo x i (tx ∷ txs) h s =
    at_head (compare tx.xid x) (compare-Compared tx.xid x)
      (λ l. search-Placed (tx.xid + 1) x (i + 1) txs l s.1)
  where
    at_head :
        (o : Ordering)
        → Compared tx.xid x o
        → (tx.xid + 1 ≤ x → Placed (tx.xid + 1) x (i + 1) txs (binary_search x (i + 1) txs))
        → Placed lo x i (tx ∷ txs) (elim o [
          | Ordering.lt ↦ binary_search x (i + 1) txs
          | Ordering.eq ↦ ok i
          | Ordering.gt ↦ err i
        ])
    at_head Ordering.lt (less l) later = Placed-cons lo x i tx txs _ s.0 l (later (omega arith))
    at_head Ordering.eq (same e) later =
        (omega arith, ground (arith, known-below (tx.xid + 1) x txs s.1))
    at_head Ordering.gt (more g) later =
        let step : i - i ≡ 0 = omega arith in
        (
          omega arith,
          ground (arith, known-below (tx.xid + 1) x txs s.1),
          rw step (h, (omega arith, s.1)),
        )

-- What a completion of `x` does: that transaction is no longer in progress, the others stay.
pub record Done (lo x : ℕ) (txs txs' : List Transaction) : Type 0 where
  pub sorted : SortedFrom lo txs'
  pub one_less : active txs ≡ active txs' + 1
  pub self : running x txs' ≡ 0
  pub others : (y : ℕ) → x ≢ y → running y txs' ≡ running y txs

complete-running :
    (now : ℕ) (tx : Transaction)
    → is_running tx.state ≡ true
    → complete now tx ≡ some (record tx { state = completed now })
unfolding complete
complete-running now tx h = ground arith

complete_at-head :
    (lo x now : ℕ) (tx : Transaction) (txs : List Transaction)
    → SortedFrom lo (tx ∷ txs)
    → running x (tx ∷ txs) ≡ 1
    → tx.xid ≡ x
    → (txs' : List Transaction) × (complete_at 0 now (tx ∷ txs) ≡ some txs')
      × Done lo x (tx ∷ txs) txs'
unfolding complete_at
complete_at-head lo x now tx txs s r e =
    let none_after : running x txs ≡ 0 =
      omega (arith, running-le-known x txs, known-below (tx.xid + 1) x txs s.1) in
    let now_running : is_running tx.state ≡ true = ground arith in
    (
      record tx { state = completed now } ∷ txs,
      rw (complete-running now tx now_running, complete_at),
      record {
        sorted = s;
        one_less = ground arith;
        self = ground arith;
        others = λ y h. ground (arith);
      },
    )

complete_at-cons :
    (lo x now k : ℕ) (tx : Transaction) (txs : List Transaction)
    → lo ≤ tx.xid
    → tx.xid < x
    → (txs' : List Transaction) × (complete_at k now txs ≡ some txs') × Done (tx.xid + 1) x txs txs'
    → (txs' : List Transaction) × (complete_at (suc k) now (tx ∷ txs) ≡ some txs')
      × Done lo x (tx ∷ txs) txs'
unfolding complete_at
complete_at-cons lo x now k tx txs h l (txs', e, d) = (
  tx ∷ txs',
  rw (e, complete_at),
  record {
    sorted = (h, d.sorted);
    one_less = omega (arith, d.one_less);
    self = ground (arith, d.self);
    others = λ y n. ground (arith, d.others y n);
  },
)

-- A completion of a transaction in progress succeeds at the place that the search returns.
pub complete_at-Done :
    (lo x i p now : ℕ) (txs : List Transaction)
    → SortedFrom lo txs
    → running x txs ≡ 1
    → binary_search x i txs ≡ ok p
    → (i ≤ p)
      × ((txs' : List Transaction) × (complete_at (p - i) now txs ≡ some txs') × Done lo x txs txs')
unfolding binary_search
complete_at-Done lo x i p now [] s r e = absurd (omega arith)
complete_at-Done lo x i p now (tx ∷ txs) s r e =
    at_head (compare tx.xid x) (compare-Compared tx.xid x) e
      (λ l later. complete_at-Done (tx.xid + 1) x (i + 1) p now txs s.1 (ground arith) later)
  where
    at_head :
        (o : Ordering)
        → Compared tx.xid x o
        → (elim o [
          | Ordering.lt ↦ binary_search x (i + 1) txs
          | Ordering.eq ↦ ok i
          | Ordering.gt ↦ err i
        ])
          ≡ ok p
        → (tx.xid < x
            → binary_search x (i + 1) txs ≡ ok p
            → (i + 1 ≤ p)
              × ((txs' : List Transaction) × (complete_at (p - (i + 1)) now txs ≡ some txs')
                  × Done (tx.xid + 1) x txs txs'))
        → (i ≤ p)
          × ((txs' : List Transaction) × (complete_at (p - i) now (tx ∷ txs) ≡ some txs')
              × Done lo x (tx ∷ txs) txs')
    at_head Ordering.lt (less l) f later =
        let (b, found) = later l f in
        let step : p - i ≡ suc (p - (i + 1)) = omega arith in
        (omega arith, rw step (complete_at-cons lo x now _ tx txs s.0 l found))
    at_head Ordering.eq (same m) f later =
        let step : p - i ≡ 0 = ground arith in
        (ground arith, rw step (complete_at-head lo x now tx txs s r m))
    at_head Ordering.gt (more g) f later = absurd (cc)
