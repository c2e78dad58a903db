-- ===== src/Tracker/Registry.antt =====
-- `TransactionTracker` and `TransactionLock` of crates/nfs3_server/src/transaction_tracker.rs. The
-- map is a function of the client's address. A lock names the client whose record it shares: that
-- the record is still the one in the map is proved in Registry/Exclusion.
pub mod Exclusion
pub mod Soundness
pub mod AtMostOnce
use Prim.Native.String.{String}
use text.Mathlib.Text.{◌==◌ as str_eq}
use nfs.Prelude.{ℕ, Bool, Option, none, some, Result, ok, err, if◌then◌else◌}
use nfs.Tracker.Client.{
  TransactionError, ClientTransactions, new, add_transaction, complete_transaction,
  remove_old_transactions, is_active,
}

pub record TransactionTracker : Type 0 where
  pub retention_period : ℕ
  pub transactions : String → Option ClientTransactions
  pub max_active_transactions : ℕ
  pub trim_limit : ℕ

pub record TransactionLock : Type 0 where
  pub client_addr : String
  pub xid : ℕ

unfoldable pub tracker_new : ℕ → ℕ → ℕ → TransactionTracker
tracker_new retention_period max_active_transactions trim_limit = record {
  retention_period = retention_period;
  transactions = λ _. none;
  max_active_transactions = max_active_transactions;
  trim_limit = trim_limit;
}

unfoldable pub insert :
    String
    → ClientTransactions
    → (String → Option ClientTransactions)
    → String
    → Option ClientTransactions
insert k c m j = if str_eq k j then some c else m j

-- `client_lock.add_transaction(xid, now)?`, and the lock.
unfoldable pub add_to_client :
    String
    → ℕ
    → ℕ
    → ClientTransactions
    → TransactionTracker
    → Result TransactionLock TransactionError × TransactionTracker
unfolding insert
add_to_client client_addr xid now c t =
    let (added, c') = add_transaction xid now c in
    let t' : TransactionTracker = record t {
      transactions = insert client_addr c' t.transactions;
    } in
    elim added [
      | ok _ ↦ (ok (record { client_addr = client_addr; xid = xid }), t')
      | err e ↦ (err e, t')
    ]

-- `none` is the panic of `ClientTransactions::new`. The look-up under the read lock and the
-- insertion under the write lock, which looks again, act together as one step.
unfoldable pub start_transaction :
    String
    → ℕ
    → ℕ
    → TransactionTracker
    → Option (Result TransactionLock TransactionError × TransactionTracker)
unfolding add_to_client
start_transaction client_addr xid now t = elim (t.transactions client_addr) [
  | some c ↦ some (add_to_client client_addr xid now c t)
  | none ↦ elim (new now t.max_active_transactions t.trim_limit) [
    | none ↦ none
    | some c ↦ some (add_to_client client_addr xid now c t)
  ]
]

-- The closure that `cleanup` hands to `HashMap::retain`.
unfoldable pub retained : ℕ → ℕ → ClientTransactions → Option ClientTransactions
retained now retention_period c =
    if is_active now retention_period c
    then some (remove_old_transactions now retention_period c)
    else none

unfoldable pub cleanup : ℕ → TransactionTracker → TransactionTracker
unfolding retained
cleanup now t = record t {
  transactions =
      λ k. elim (t.transactions k) [ none ↦ none | some c ↦ retained now t.retention_period c ];
}

-- `Drop for TransactionLock`. `none` is a panic, or a record that the map has lost.
unfoldable pub drop_lock : TransactionLock → ℕ → TransactionTracker → Option TransactionTracker
unfolding insert
drop_lock lock now t = elim (t.transactions lock.client_addr) [
  | none ↦ none
  | some c ↦ elim (complete_transaction lock.xid now c) [
    | none ↦ none
    | some c' ↦ some (record t {
      transactions =
          insert lock.client_addr (remove_old_transactions now t.retention_period c')
            t.transactions;
    })
  ]
]
