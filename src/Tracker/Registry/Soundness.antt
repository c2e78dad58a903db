-- ===== src/Tracker/Registry/Soundness.antt =====
-- The invariant `IsSound` through the steps of crates/nfs3_server/src/transaction_tracker.rs, and the
-- locks in every world that is reached.
use Prim.Native.String.{String}
use text.Mathlib.Text.{◌==◌ as str_eq}
use text.Mathlib.TextEquality.{eq_iff}
use text.Mathlib.TextPositions.{eq_refl}
use mathlib.Core.Path.{subst}
use nfs.Prelude.{
  ℕ, ◌≤◌, ◌<◌, ◌≡◌, refl, ap, Option, none, some, List, ◌∷◌, ◌++◌, arith, Option-cases, inl, inr,
  Bool-cases,
}
use nfs.Tracker.Client.{ClientTransactions, remove_old_transactions, is_active}
use nfs.Tracker.Client.View.{running, IsValid, running-le-known, known-le-one}
use nfs.Tracker.Client.Operations.{Completed, complete_transaction-Completed}
use nfs.Tracker.Client.Activity.{remove_old-IsValid, running-remove_old, is_active-running}
use nfs.Tracker.Registry.{TransactionTracker, TransactionLock, insert, retained, cleanup, drop_lock}
use nfs.Tracker.Registry.Exclusion.{held, held-append, in_client, World, IsSound, IsValid-some}

-- The cleaner drops no client with a transaction in progress.
module _ (now period : ℕ) (c : ClientTransactions) where
  in_client-retained : (x : ℕ) → in_client x (retained now period c) ≡ running x c.transactions
  unfolding retained
  in_client-retained x =
      ground (arith, running-remove_old now period c x, is_active-running now period x c)

  retained-IsValid :
      (d : ClientTransactions) → retained now period c ≡ some d → IsValid c → IsValid d
  unfolding retained
  retained-IsValid d h v = elim (Bool-cases (is_active now period c)) [
    | inl a ↦ IsValid-some (rw (a, retained) at h) (remove_old-IsValid now period c v)
    | inr a ↦ absurd (ground (arith))
  ]

pub clean-IsSound :
    (w : World) (now : ℕ) → IsSound w → IsSound (record w { tracker = cleanup now w.tracker })
unfolding cleanup
clean-IsSound w now s = record {
  clients = λ k d h. elim (Option-cases (w.tracker.transactions k)) [
    | inl e ↦ absurd (ground (arith))
    | inr (c, e) ↦ retained-IsValid now w.tracker.retention_period c d (rw e at h) (s.clients k c e)
  ];
  exact = λ k x. elim (Option-cases (w.tracker.transactions k)) [
    | inl e ↦ ground (arith, s.exact k x)
    | inr (c, e) ↦
        ground (arith, s.exact k x, in_client-retained now w.tracker.retention_period c x)
  ];
  limits = s.limits;
  word = s.word;
}

-- A lock that is held is for a transaction in progress, which is there once.
module _ (w : World) (s : IsSound w) (k : String) (x : ℕ) where
  in_client-le-one :
      (o : Option ClientTransactions) → w.tracker.transactions k ≡ o → in_client x o ≤ 1
  in_client-le-one none e = omega arith
  in_client-le-one (some c) e = omega (
    arith,
    running-le-known x c.transactions,
    known-le-one 0 x c.transactions (s.clients k c e).sorted,
  )

  -- Of the locks that are held at a time, no two are for the same request.
  pub held-le-one : held k x w.locks ≤ 1
  held-le-one = omega (arith, s.exact k x, in_client-le-one (w.tracker.transactions k) refl)

  pub held-some :
      0 < held k x w.locks
      → (c : ClientTransactions) × (w.tracker.transactions k ≡ some c)
        × (running x c.transactions ≡ 1)
  held-some h = elim (Option-cases (w.tracker.transactions k)) [
    | inl e ↦ absurd (ground (arith, s.exact k x))
    | inr (c, e) ↦ (c, e, ground (arith, s.exact k x, held-le-one))
  ]

-- What dropping a lock does: it completes the transaction in the client's record.
record Dropped (w : World) (lock : TransactionLock) (now : ℕ) (t : TransactionTracker)
    : Type 0 where
  before : ClientTransactions
  after : ClientTransactions
  found : w.tracker.transactions lock.client_addr ≡ some before
  completed : Completed lock.xid before after
  was_running : running lock.xid before.transactions ≡ 1
  dropped : t ≡ record w.tracker {
    transactions =
        insert lock.client_addr
          (remove_old_transactions now w.tracker.retention_period after)
          w.tracker.transactions;
  }

drop_lock-Dropped :
    (w : World) (lock : TransactionLock) (now : ℕ)
    → IsSound w
    → 0 < held lock.client_addr lock.xid w.locks
    → (t : TransactionTracker) × (drop_lock lock now w.tracker ≡ some t) × Dropped w lock now t
unfolding drop_lock
drop_lock-Dropped w lock now s h =
    let (c, e, r) = held-some w s lock.client_addr lock.xid h in
    let (c', f, done) =
      complete_transaction-Completed lock.xid now c (s.clients lock.client_addr c e) r in
    (
      _,
      rw (e, drop_lock) (rw f),
      record {
        before = c;
        after = c';
        found = e;
        completed = done;
        was_running = r;
        dropped = refl;
      },
    )

Dropped-IsSound :
    (w : World) (before after : List TransactionLock) (lock : TransactionLock) (now : ℕ)
    (t : TransactionTracker)
    → IsSound w
    → w.locks ≡ before ++ (lock ∷ after)
    → Dropped w lock now t
    → IsSound (record { tracker = t; locks = before ++ after })
unfolding insert
Dropped-IsSound w before after lock now t s split d =
    let period = w.tracker.retention_period in
    rw d.dropped (record {
      clients = λ j c h. elim (Bool-cases (str_eq lock.client_addr j)) [
        | inl e ↦
            IsValid-some (rw (e, insert) at h)
              (remove_old-IsValid now period d.after d.completed.valid)
        | inr e ↦ s.clients j c (rw (e, insert) at h)
      ];
      exact = λ j y. ground (
        arith,
        held-append j y before after,
        held-append j y before (lock ∷ after),
        ap (held j y) split,
        s.exact j y,
        running-remove_old now period d.after y,
        d.found,
        d.was_running,
        d.completed.self,
        d.completed.others y,
        eq_iff lock.client_addr j,
      );
      limits = s.limits;
      word = s.word;
    })

-- The lock of a split list is held.
held-split :
    (lock : TransactionLock) (before after locks : List TransactionLock)
    → locks ≡ before ++ (lock ∷ after)
    → 0 < held lock.client_addr lock.xid locks
held-split lock before after locks e = ground (
  arith,
  ap (held lock.client_addr lock.xid) e,
  held-append lock.client_addr lock.xid before (lock ∷ after),
  eq_refl lock.client_addr,
)

-- Dropping any lock that is held neither panics nor misses the client's record.
pub drop_lock-total :
    (w : World) (before after : List TransactionLock) (lock : TransactionLock) (now : ℕ)
    → IsSound w
    → w.locks ≡ before ++ (lock ∷ after)
    → (t : TransactionTracker) × (drop_lock lock now w.tracker ≡ some t)
drop_lock-total w before after lock now s split =
    let (t, e, d) = drop_lock-Dropped w lock now s (held-split lock before after w.locks split) in
    (t, e)

pub finish-IsSound :
    (w : World) (before after : List TransactionLock) (lock : TransactionLock) (now : ℕ)
    (t : TransactionTracker)
    → IsSound w
    → w.locks ≡ before ++ (lock ∷ after)
    → drop_lock lock now w.tracker ≡ some t
    → IsSound (record { tracker = t; locks = before ++ after })
finish-IsSound w before after lock now t s split h =
    let (t', e, d) = drop_lock-Dropped w lock now s (held-split lock before after w.locks split) in
    Dropped-IsSound w before after lock now t s split (subst (Dropped w lock now) (cc) d)
