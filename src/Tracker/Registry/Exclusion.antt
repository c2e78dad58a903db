-- ===== src/Tracker/Registry/Exclusion.antt =====
-- The tracker of crates/nfs3_server/src/transaction_tracker.rs with the locks that its requests hold:
-- worlds, the steps between them, and the invariant that joins locks and transactions in progress.
use Prim.Native.String.{String}
use text.Mathlib.Text.{◌==◌ as str_eq}
use text.Mathlib.TextEquality.{eq_iff}
use mathlib.Core.Path.{subst}
use nfs.Prelude.{
  ℕ, ◌+◌, ◌<◌, ◌^◌, ◌≡◌, Option, none, some, List, [], ◌∷◌, ◌++◌, Result, ok, err, if◌then◌else◌,
  ◌==◌, arith, Option-cases, inl, inr, lt→ltb, Bool-cases,
}
use nfs.Tracker.Client.{
  TransactionError, already_exists, too_many_requests, ClientTransactions, new, add_transaction,
}
use nfs.Tracker.Client.View.{running, known, IsValid}
use nfs.Tracker.Client.Operations.{new-IsValid, Added, add_transaction-IsValid}
use nfs.Tracker.Registry.{
  TransactionTracker, TransactionLock, insert, add_to_client, start_transaction, cleanup, drop_lock,
}

-- How many of the locks are for this request.
abbrev pub held : String → ℕ → List TransactionLock → ℕ
held k x [] = 0
held k x (l ∷ ls) =
    (if str_eq l.client_addr k then (if l.xid == x then 1 else 0) else 0) + held k x ls

-- How often the request is in progress.
abbrev pub in_client : ℕ → Option ClientTransactions → ℕ
in_client x none = 0
in_client x (some c) = running x c.transactions

pub record World : Type 0 where
  pub tracker : TransactionTracker
  pub locks : List TransactionLock

-- What requests, the cleaner and finished requests do, in any order and at any times.
pub data Step : World → World → Type 0 where
  start :
      (w : World) (client_addr : String) (xid now : ℕ) (lock : TransactionLock)
      (t : TransactionTracker)
      → start_transaction client_addr xid now w.tracker ≡ some (ok lock, t)
      → Step w (record { tracker = t; locks = lock ∷ w.locks })
  refuse :
      (w : World) (client_addr : String) (xid now : ℕ) (e : TransactionError)
      (t : TransactionTracker)
      → start_transaction client_addr xid now w.tracker ≡ some (err e, t)
      → Step w (record { tracker = t; locks = w.locks })
  clean : (w : World) (now : ℕ) → Step w (record w { tracker = cleanup now w.tracker })
  finish :
      (w : World) (before after : List TransactionLock) (lock : TransactionLock) (now : ℕ)
      (t : TransactionTracker)
      → w.locks ≡ before ++ (lock ∷ after)
      → drop_lock lock now w.tracker ≡ some t
      → Step w (record { tracker = t; locks = before ++ after })

pub data Reach (s : World) : World → Type 0 where
  here : Reach s s
  next : {t u : World} → Reach s t → Step t u → Reach s u

pub record IsSound (w : World) : Type 0 where
  pub clients :
      (k : String) (c : ClientTransactions) → w.tracker.transactions k ≡ some c → IsValid c
  pub exact : (k : String) (x : ℕ) → held k x w.locks ≡ in_client x (w.tracker.transactions k)
  pub limits : w.tracker.max_active_transactions < w.tracker.trim_limit
  pub word : w.tracker.max_active_transactions < 2 ^ 16

pub held-append :
    (k : String) (x : ℕ) (ls ms : List TransactionLock)
    → held k x (ls ++ ms) ≡ held k x ls + held k x ms
held-append k x [] ms = omega arith
held-append k x (l ∷ ls) ms = omega (arith, held-append k x ls ms)

-- The record of the client, or the new one that a request makes.
abbrev client_for : TransactionTracker → ℕ → String → Option ClientTransactions
client_for t now k = elim (t.transactions k) [
  | some c ↦ some c
  | none ↦ new now t.max_active_transactions t.trim_limit
]

-- A request acts on a valid record with the transactions that the map has for the client.
pub record Serves (w : World) (k : String) (c : ClientTransactions) : Type 0 where
  pub valid : IsValid c
  pub exact : (x : ℕ) → running x c.transactions ≡ in_client x (w.tracker.transactions k)

new-total :
    (now max limit : ℕ) → max < limit → (c : ClientTransactions) × (new now max limit ≡ some c)
unfolding new
new-total now max limit h = (
  record {
    transactions = [];
    last_active = now;
    active_transactions = 0;
    max_active_transactions = max;
    trim_limit = limit;
  },
  rw (lt→ltb max limit h),
)

pub IsValid-some : {c d : ClientTransactions} → some c ≡ some d → IsValid c → IsValid d
IsValid-some e v = subst IsValid (cc) v

pub start-Serves :
    (w : World) (k : String) (xid now : ℕ)
    → IsSound w
    → (c : ClientTransactions) × (start_transaction k xid now w.tracker
        ≡ some (add_to_client k xid now c w.tracker))
      × Serves w k c
unfolding start_transaction
start-Serves w k xid now s = elim (Option-cases (w.tracker.transactions k)) [
  | inr (c, e) ↦
      (c, rw (e, start_transaction), record { valid = s.clients k c e; exact = λ x. rw e })
  | inl e ↦
      let t = w.tracker in
      let (c, n) = new-total now t.max_active_transactions t.trim_limit s.limits in
      let (v, empty) = new-IsValid now t.max_active_transactions t.trim_limit c s.word n in
      (c, rw (e, start_transaction) (rw n), record { valid = v; exact = λ x. rw e (empty x) })
]

-- The tracker after `add_transaction`.
abbrev pub added_tracker :
    String → ℕ → ℕ → ClientTransactions → TransactionTracker → TransactionTracker
added_tracker k xid now c t = record t {
  transactions = insert k (add_transaction xid now c).1 t.transactions;
}

module _ (w : World) (k : String) (xid now : ℕ) (c : ClientTransactions) where
  pub add_ok :
      (add_transaction xid now c).0 ≡ ok tt
      → add_to_client k xid now c w.tracker
        ≡ (ok (record { client_addr = k; xid = xid }), added_tracker k xid now c w.tracker)
  unfolding add_to_client
  add_ok e = rw (e, add_to_client)

  pub add_err :
      (e : TransactionError)
      → (add_transaction xid now c).0 ≡ err e
      → add_to_client k xid now c w.tracker ≡ (err e, added_tracker k xid now c w.tracker)
  unfolding add_to_client
  add_err e h = rw (h, add_to_client)

  insert-clients :
      IsSound w
      → IsValid (add_transaction xid now c).1
      → (j : String) (d : ClientTransactions)
      → insert k (add_transaction xid now c).1 w.tracker.transactions j ≡ some d
      → IsValid d
  unfolding insert
  insert-clients s v j d h = elim (Bool-cases (str_eq k j)) [
    | inl e ↦ IsValid-some (rw (e, insert) at h) v
    | inr e ↦ s.clients j d (rw (e, insert) at h)
  ]

  -- With the lock that a request gets, and with none when it is refused.
  pub add-IsSound :
      IsSound w
      → Serves w k c
      → (r : Result (Unit {0}) TransactionError) → (add_transaction xid now c).0 ≡ r
      → Added xid c r (add_transaction xid now c).1
      → IsSound (record {
        tracker = added_tracker k xid now c w.tracker;
        locks = elim r [ ok _ ↦ record { client_addr = k; xid = xid } ∷ w.locks | err _ ↦ w.locks ];
      })
  unfolding insert
  add-IsSound s serves (ok _) e (known, room, adds) = record {
    clients = insert-clients s (add_transaction-IsValid xid now c serves.valid);
    exact = λ j y. ground (arith, s.exact j y, serves.exact y, adds y, eq_iff k j);
    limits = s.limits;
    word = s.word;
  }
  add-IsSound s serves (err already_exists) e (known, same) = record {
    clients = insert-clients s (add_transaction-IsValid xid now c serves.valid);
    exact = λ j y. ground (arith, s.exact j y, serves.exact y, same, eq_iff k j);
    limits = s.limits;
    word = s.word;
  }
  add-IsSound s serves (err too_many_requests) e (known, full, same) = record {
    clients = insert-clients s (add_transaction-IsValid xid now c serves.valid);
    exact = λ j y. ground (arith, s.exact j y, serves.exact y, same, eq_iff k j);
    limits = s.limits;
    word = s.word;
  }
