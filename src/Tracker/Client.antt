-- ===== src/Tracker/Client.antt =====
-- `Transaction` and `ClientTransactions` of crates/nfs3_server/src/transaction_tracker.rs: the
-- transactions of one client, sorted by xid. An `Instant` or a `Duration` is a number of
-- nanoseconds, and the difference of two instants stops at 0 as in the standard library.
pub mod View
pub mod Search
pub mod Update
pub mod Operations
pub mod Activity
use nfs.Prelude.{
  ℕ, zero, suc, ◌+◌, ◌-◌, ◌%◌, ◌^◌, Bool, true, false, not, ◌||◌, Option, none, some, List, [], ◌∷◌,
  Result, ok, err, length, ltb, leb, if◌then◌else◌,
}
use Prim.Native.Nat.{compare, Ordering}

pub data TransactionError : Type 0 where
  already_exists too_many_requests : TransactionError

pub data TransactionState : Type 0 where
  in_progress : TransactionState
  completed : ℕ → TransactionState

pub record Transaction : Type 0 where
  pub xid : ℕ
  pub state : TransactionState

-- `Transaction::in_progress`.
unfoldable pub started : ℕ → Transaction
started xid = record { xid = xid; state = in_progress }

-- `none` is the failed assertion that the transaction is in progress.
unfoldable pub complete : ℕ → Transaction → Option Transaction
complete now tx = elim tx.state [
  | in_progress ↦ some (record tx { state = completed now })
  | completed _ ↦ none
]

unfoldable pub is_stale : ℕ → ℕ → Transaction → Bool
is_stale now max_age tx = elim tx.state [
  | in_progress ↦ false
  | completed tx_time ↦ ltb max_age (now - tx_time)
]

pub record ClientTransactions : Type 0 where
  pub transactions : List Transaction
  pub last_active : ℕ
  pub active_transactions : ℕ
  pub max_active_transactions : ℕ
  pub trim_limit : ℕ

-- `none` is the failed assertion on the limits.
unfoldable pub new : ℕ → ℕ → ℕ → Option ClientTransactions
new now max_active_transactions trim_limit =
    if ltb max_active_transactions trim_limit
    then some (record {
      transactions = [];
      last_active = now;
      active_transactions = 0;
      max_active_transactions = max_active_transactions;
      trim_limit = trim_limit;
    })
    else none

-- `VecDeque::back`.
unfoldable pub back : List Transaction → Option Transaction
back [] = none
back (tx ∷ []) = some tx
back (tx ∷ tx' ∷ txs) = back (tx' ∷ txs)

-- `VecDeque::binary_search_by_key` on a deque without repeated keys: the place of the key, or the
-- place where it belongs. `i` transactions stand before the list.
unfoldable pub binary_search : ℕ → ℕ → List Transaction → Result ℕ ℕ
binary_search xid i [] = err i
binary_search xid i (tx ∷ txs) =
    let later = binary_search xid (i + 1) txs in
    elim (compare tx.xid xid) [ Ordering.lt ↦ later | Ordering.eq ↦ ok i | Ordering.gt ↦ err i ]

-- `VecDeque::insert`.
unfoldable pub insert_at : ℕ → Transaction → List Transaction → List Transaction
insert_at zero tx txs = tx ∷ txs
insert_at (suc i) tx [] = tx ∷ []
insert_at (suc i) tx (tx' ∷ txs) = tx' ∷ insert_at i tx txs

unfoldable pub find_transaction : ℕ → List Transaction → Result ℕ ℕ
unfolding back binary_search
find_transaction xid txs = elim (back txs) [
  | some last_tx ↦ elim (compare last_tx.xid xid) [
    | Ordering.eq ↦ ok (length txs - 1)
    | Ordering.lt ↦ err (length txs)
    | Ordering.gt ↦ binary_search xid 0 txs
  ]
  | none ↦ err 0
]

-- Removes the oldest transactions while there are more than the limit, up to one in progress.
unfoldable pub trim_if_needed : ℕ → List Transaction → List Transaction
trim_if_needed limit [] = []
trim_if_needed limit (tx ∷ txs) =
    let rest = trim_if_needed limit txs in
    if ltb limit (length (tx ∷ txs))
    then elim tx.state [ in_progress ↦ tx ∷ txs | completed _ ↦ rest ]
    else tx ∷ txs

-- The count is a `u16`.
unfoldable pub add_transaction :
    ℕ → ℕ → ClientTransactions → Result (Unit {0}) TransactionError × ClientTransactions
unfolding find_transaction insert_at trim_if_needed started
add_transaction xid now c = elim (find_transaction xid c.transactions) [
  | ok _ ↦ (err already_exists, record c { last_active = now })
  | err p ↦
      if leb c.max_active_transactions c.active_transactions
      then (err too_many_requests, record c { last_active = now })
      else (
        ok tt,
        record c {
          transactions = trim_if_needed c.trim_limit (insert_at p (started xid) c.transactions);
          last_active = now;
          active_transactions = (c.active_transactions + 1) % 2 ^ 16;
        },
      )
]

-- `self.transactions[p].complete(now)`; past the end the index panics.
unfoldable pub complete_at : ℕ → ℕ → List Transaction → Option (List Transaction)
unfolding complete
complete_at p now [] = none
complete_at zero now (tx ∷ txs) = elim (complete now tx) [
  | none ↦ none
  | some tx' ↦ some (tx' ∷ txs)
]
complete_at (suc p) now (tx ∷ txs) = elim (complete_at p now txs) [
  | none ↦ none
  | some txs' ↦ some (tx ∷ txs')
]

-- `none` is a panic. The count is a `u16`.
unfoldable pub complete_transaction : ℕ → ℕ → ClientTransactions → Option ClientTransactions
unfolding find_transaction complete_at
complete_transaction xid now c = elim (find_transaction xid c.transactions) [
  | ok p ↦ elim (complete_at p now c.transactions) [
    | none ↦ none
    | some txs ↦ some (record c {
      transactions = txs;
      last_active = now;
      active_transactions = (c.active_transactions + 2 ^ 16 - 1) % 2 ^ 16;
    })
  ]
  | err _ ↦ some (record c { last_active = now })
]

-- The loop of `remove_old_transactions`.
unfoldable pub drop_stale : ℕ → ℕ → List Transaction → List Transaction
unfolding is_stale
drop_stale now max_age [] = []
drop_stale now max_age (tx ∷ txs) =
    let rest = drop_stale now max_age txs in if is_stale now max_age tx then rest else tx ∷ txs

unfoldable pub remove_old_transactions : ℕ → ℕ → ClientTransactions → ClientTransactions
unfolding drop_stale
remove_old_transactions now max_age c = record c {
  transactions = drop_stale now max_age c.transactions;
}

-- The `any` of `has_active_transactions`.
unfoldable pub any_fresh : ℕ → ℕ → List Transaction → Bool
unfolding is_stale
any_fresh now max_age [] = false
any_fresh now max_age (tx ∷ txs) = not (is_stale now max_age tx) || any_fresh now max_age txs

unfoldable pub is_active : ℕ → ℕ → ClientTransactions → Bool
unfolding any_fresh
is_active now max_age c =
    if ltb (now - c.last_active) max_age then true else any_fresh now max_age c.transactions
