-- ===== src/Tracker/Client/Activity.antt =====
-- The removal of old transactions and the activity of a client in
-- crates/nfs3_server/src/transaction_tracker.rs.
use nfs.Prelude.{ℕ, ◌<◌, ◌≡◌, true, List, [], ◌∷◌, arith}
use nfs.Tracker.Client.{
  Transaction, ClientTransactions, remove_old_transactions, any_fresh, is_active,
}
use nfs.Tracker.Client.View.{
  running, IsValid, SortedFrom-drop_stale, running-drop_stale, active-drop_stale,
}

module _ (now max_age : ℕ) (c : ClientTransactions) where
  pub remove_old-IsValid : IsValid c → IsValid (remove_old_transactions now max_age c)
  unfolding remove_old_transactions
  remove_old-IsValid v = record {
    sorted = SortedFrom-drop_stale now max_age 0 c.transactions v.sorted;
    counted = omega (arith, v.counted, active-drop_stale now max_age c.transactions);
    bounded = v.bounded;
    limits = v.limits;
    word = v.word;
  }

  pub running-remove_old :
      (y : ℕ)
      → running y (remove_old_transactions now max_age c).transactions ≡ running y c.transactions
  unfolding remove_old_transactions
  running-remove_old y = running-drop_stale now max_age y c.transactions

any_fresh-running :
    (now max_age x : ℕ) (txs : List Transaction)
    → 0 < running x txs
    → any_fresh now max_age txs ≡ true
unfolding any_fresh
any_fresh-running now max_age x [] h = absurd (omega arith)
any_fresh-running now max_age x (tx ∷ txs) h = ground (arith, any_fresh-running now max_age x txs)

-- A client with a transaction in progress is active, however long ago it was heard of.
pub is_active-running :
    (now max_age x : ℕ) (c : ClientTransactions)
    → 0 < running x c.transactions
    → is_active now max_age c ≡ true
unfolding is_active
is_active-running now max_age x c h = ground (arith, any_fresh-running now max_age x c.transactions)
