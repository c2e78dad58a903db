-- ===== src/Tracker/Client/Operations.antt =====
-- `new`, `add_transaction` and `complete_transaction` of `ClientTransactions` in
-- crates/nfs3_server/src/transaction_tracker.rs: the invariant, and the transactions in progress.
use nfs.Prelude.{
  ℕ, ◌+◌, ◌-◌, ◌%◌, ◌^◌, ◌<◌, ◌≡◌, ◌≢◌, ◌∙◌, refl, true, false, some, List, Result, ok, err, arith,
  if◌then◌else◌, ◌==◌, Bool-cases, inl, inr, leb,
}
use nfs.Tracker.Client.{
  Transaction, TransactionError, already_exists, too_many_requests, ClientTransactions, new,
  binary_search, insert_at, started, trim_if_needed, find_transaction, add_transaction, complete_at,
  complete_transaction,
}
use nfs.Tracker.Client.View.{
  running, known, IsValid, running-le-known, running-insert_at, active-insert_at, SortedFrom-trim,
  running-trim, active-trim,
}
use nfs.Tracker.Client.Search.{find_transaction-eq-search}
use nfs.Tracker.Client.Update.{Placed, search-Placed, complete_at-Done}

-- A new client has no transactions and satisfies the invariant, if its limits do.
pub new-IsValid :
    (now max limit : ℕ) (c : ClientTransactions)
    → max < 2 ^ 16
    → new now max limit ≡ some c
    → IsValid c × ((x : ℕ) → running x c.transactions ≡ 0)
unfolding new
new-IsValid now max limit c w h = ground arith

-- What `add_transaction` answers, and what it does to the transactions in progress.
abbrev pub Added :
    ℕ → ClientTransactions → Result (Unit {0}) TransactionError → ClientTransactions → Type 0
Added x c (ok _) c' =
    (known x c.transactions ≡ 0)
    × (c.active_transactions < c.max_active_transactions)
    × ((y : ℕ) → running y c'.transactions ≡ (if x == y then 1 else 0) + running y c.transactions)
Added x c (err already_exists) c' =
    (known x c.transactions ≡ 1) × (c'.transactions ≡ c.transactions)
Added x c (err too_many_requests) c' =
    (known x c.transactions ≡ 0)
    × (c.active_transactions ≡ c.max_active_transactions)
    × (c'.transactions ≡ c.transactions)

-- `add_transaction` on each of its three branches.
module _ (x now p : ℕ) (c : ClientTransactions) where
  add_known :
      find_transaction x c.transactions ≡ ok p
      → add_transaction x now c ≡ (err already_exists, record c { last_active = now })
  unfolding add_transaction
  add_known e = rw (e, add_transaction)

  add_full :
      find_transaction x c.transactions ≡ err p
      → leb c.max_active_transactions c.active_transactions ≡ true
      → add_transaction x now c ≡ (err too_many_requests, record c { last_active = now })
  unfolding add_transaction
  add_full e f = rw (e, add_transaction) (rw f)

  add_new :
      find_transaction x c.transactions ≡ err p
      → leb c.max_active_transactions c.active_transactions ≡ false
      → add_transaction x now c ≡ (
        ok tt,
        record c {
          transactions = trim_if_needed c.trim_limit (insert_at p (started x) c.transactions);
          last_active = now;
          active_transactions = (c.active_transactions + 1) % 2 ^ 16;
        },
      )
  unfolding add_transaction
  add_new e f = rw (e, add_transaction) (rw f)

module _ (x now : ℕ) (c : ClientTransactions) (v : IsValid c) where
  add-found :
      (r : Result ℕ ℕ)
      → find_transaction x c.transactions ≡ r
      → Placed 0 x 0 c.transactions r
      → IsValid (add_transaction x now c).1
        × Added x c (add_transaction x now c).0 (add_transaction x now c).1
  add-found (ok p) e (b, k) = rw (add_known x now p c e) (
    record {
      sorted = v.sorted;
      counted = v.counted;
      bounded = v.bounded;
      limits = v.limits;
      word = v.word;
    },
    (k, refl),
  )
  add-found (err p) e (b, k, s) =
      elim (Bool-cases (leb c.max_active_transactions c.active_transactions)) [
        | inl full ↦ rw (add_full x now p c e full) (
          record {
            sorted = v.sorted;
            counted = v.counted;
            bounded = v.bounded;
            limits = v.limits;
            word = v.word;
          },
          (k, ground (arith, v.bounded), refl),
        )
        | inr room ↦
            let at_p : p - 0 ≡ p = omega arith in
            let txs = insert_at p (started x) c.transactions in
            rw (add_new x now p c e room) (
              record {
                sorted = SortedFrom-trim c.trim_limit 0 txs (rw at_p at s);
                counted = ground (
                  arith,
                  v.counted,
                  v.bounded,
                  v.word,
                  active-trim c.trim_limit txs,
                  active-insert_at x p c.transactions,
                );
                bounded = ground (arith, v.bounded, v.word);
                limits = v.limits;
                word = v.word;
              },
              (
                k,
                ground arith,
                λ y. running-trim c.trim_limit y txs ∙ running-insert_at y x p c.transactions,
              ),
            )
      ]

  add-both :
      IsValid (add_transaction x now c).1
      × Added x c (add_transaction x now c).0 (add_transaction x now c).1
  add-both = add-found _ refl (
      rw (find_transaction-eq-search x c.transactions v.sorted)
        (search-Placed 0 x 0 c.transactions (omega arith) v.sorted))

  -- Adding a transaction keeps the invariant: the order, the count, and its bound.
  pub add_transaction-IsValid : IsValid (add_transaction x now c).1
  add_transaction-IsValid = add-both.0

  -- It succeeds exactly on an xid that is not known while there is room, and then the xid, and no
  -- other, has one more transaction in progress; otherwise it changes no transaction.
  pub add_transaction-Added : Added x c (add_transaction x now c).0 (add_transaction x now c).1
  add_transaction-Added = add-both.1

-- A completion of `x` that succeeds with `c'`.
pub record Completed (x : ℕ) (c c' : ClientTransactions) : Type 0 where
  pub valid : IsValid c'
  pub self : running x c'.transactions ≡ 0
  pub others : (y : ℕ) → x ≢ y → running y c'.transactions ≡ running y c.transactions

module _ (x now : ℕ) (c : ClientTransactions) (v : IsValid c) where
  complete-found :
      (p : ℕ) (txs : List Transaction)
      → find_transaction x c.transactions ≡ ok p
      → complete_at p now c.transactions ≡ some txs
      → complete_transaction x now c
        ≡ some (record c {
          transactions = txs;
          last_active = now;
          active_transactions = (c.active_transactions + 2 ^ 16 - 1) % 2 ^ 16;
        })
  unfolding complete_transaction
  complete-found p txs e f = rw (e, complete_transaction) (rw f)

  complete-lost :
      (p : ℕ)
      → find_transaction x c.transactions ≡ err p
      → complete_transaction x now c ≡ some (record c { last_active = now })
  unfolding complete_transaction
  complete-lost p e = rw (e, complete_transaction)

  placed : Placed 0 x 0 c.transactions (binary_search x 0 c.transactions)
  placed = search-Placed 0 x 0 c.transactions (omega arith) v.sorted

  complete-searched :
      running x c.transactions ≡ 1
      → (r : Result ℕ ℕ) → binary_search x 0 c.transactions ≡ r
      → Placed 0 x 0 c.transactions r
      → (c' : ClientTransactions) × (complete_transaction x now c ≡ some c') × Completed x c c'
  complete-searched r (err p) e (b, k, s) =
      absurd (omega (arith, running-le-known x c.transactions))
  complete-searched r (ok p) e (b, k) =
      let at_p : p - 0 ≡ p = omega arith in
      let (b, found_at) = complete_at-Done 0 x 0 p now c.transactions v.sorted r e in
      let (txs, f, d) = found_at in
      let found = find_transaction-eq-search x c.transactions v.sorted ∙ e in
      (
        record c {
          transactions = txs;
          last_active = now;
          active_transactions = (c.active_transactions + 2 ^ 16 - 1) % 2 ^ 16;
        },
        complete-found p txs found (rw at_p at f),
        record {
          valid = record {
            sorted = d.sorted;
            counted = omega (arith, v.counted, v.bounded, v.word, d.one_less);
            bounded = omega (arith, v.counted, v.bounded, v.word, d.one_less);
            limits = v.limits;
            word = v.word;
          };
          self = d.self;
          others = d.others;
        },
      )

  -- Completing a transaction that is in progress does not panic. It keeps the invariant, and takes
  -- the xid, and no other, out of progress.
  pub complete_transaction-Completed :
      running x c.transactions ≡ 1
      → (c' : ClientTransactions) × (complete_transaction x now c ≡ some c') × Completed x c c'
  complete_transaction-Completed r = complete-searched r _ refl placed

  pub complete_transaction-unknown :
      known x c.transactions ≡ 0
      → complete_transaction x now c ≡ some (record c { last_active = now })
  complete_transaction-unknown k = unknown _ refl placed
    where
      unknown :
          (r : Result ℕ ℕ)
          → binary_search x 0 c.transactions ≡ r
          → Placed 0 x 0 c.transactions r
          → complete_transaction x now c ≡ some (record c { last_active = now })
      unknown (ok p) e (b, k') = absurd (omega arith)
      unknown (err p) e rest =
          complete-lost p (find_transaction-eq-search x c.transactions v.sorted ∙ e)
