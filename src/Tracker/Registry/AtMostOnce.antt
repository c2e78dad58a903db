-- ===== src/Tracker/Registry/AtMostOnce.antt =====
-- Requests and their retransmissions in the worlds that the steps of
-- crates/nfs3_server/src/transaction_tracker.rs reach.
use Prim.Native.String.{String}
use mathlib.Core.Path.{subst}
use nfs.Prelude.{ℕ, ◌≤◌, ◌<◌, ◌^◌, ◌≡◌, refl, ◌∙◌, ap, some, List, [], ◌∷◌, Result, ok, err, arith}
use nfs.Tracker.Client.{
  TransactionError, already_exists, too_many_requests, ClientTransactions, add_transaction,
}
use nfs.Tracker.Client.View.{known, running-le-known}
use nfs.Tracker.Client.Operations.{Added, add_transaction-Added}
use nfs.Tracker.Registry.{
  TransactionTracker, TransactionLock, start_transaction, add_to_client, tracker_new,
}
use nfs.Tracker.Registry.Exclusion.{
  held, World, Step, start, refuse, clean, finish, Reach, here, next, IsSound, Serves, start-Serves,
  add_ok, add_err, add-IsSound,
}
use nfs.Tracker.Registry.Soundness.{clean-IsSound, finish-IsSound, held-le-one}

-- The locks after a request.
abbrev pub locked :
    Result TransactionLock TransactionError → List TransactionLock → List TransactionLock
locked (ok lock) locks = lock ∷ locks
locked (err e) locks = locks

abbrev pub Outcome : Type 0
Outcome = Result TransactionLock TransactionError × TransactionTracker

abbrev pub world_after : World → Outcome → World
world_after w p = record { tracker = p.1; locks = locked p.0 w.locks }

-- The answer to a request whose client has the record `c`.
module _ (w : World) (k : String) (xid now : ℕ) (c : ClientTransactions) (s : IsSound w) where
  add-Outcome :
      Serves w k c
      → (r : Result (Unit {0}) TransactionError) → (add_transaction xid now c).0 ≡ r
      → Added xid c r (add_transaction xid now c).1
      → (p : Outcome) × (add_to_client k xid now c w.tracker ≡ p) × IsSound (world_after w p)
  add-Outcome serves (ok u) e a =
      (_, add_ok w k xid now c e, add-IsSound w k xid now c s serves (ok u) e a)
  add-Outcome serves (err x) e a =
      (_, add_err w k xid now c x e, add-IsSound w k xid now c s serves (err x) e a)

module _ (w : World) (k : String) (xid now : ℕ) (s : IsSound w) where
  pub start-Outcome :
      (p : Outcome) × (start_transaction k xid now w.tracker ≡ some p) × IsSound (world_after w p)
  start-Outcome =
      let (c, e, serves) = start-Serves w k xid now s in
      let (p, f, sound) =
        add-Outcome w k xid now c s serves _ refl (add_transaction-Added xid now c serves.valid) in
      (p, rw f at e, sound)

  start-IsSound :
      (p : Outcome) → start_transaction k xid now w.tracker ≡ some p → IsSound (world_after w p)
  start-IsSound p h =
      let (p', e, sound) = start-Outcome in
      subst (λ (q : Outcome). IsSound (world_after w q)) (cc) sound

-- Every step keeps `IsSound`.
pub Step-IsSound : {w w' : World} → Step w w' → IsSound w → IsSound w'
Step-IsSound (start w k xid now lock t e) s = start-IsSound w k xid now s (ok lock, t) e
Step-IsSound (refuse w k xid now x t e) s = start-IsSound w k xid now s (err x, t) e
Step-IsSound (clean w now) s = clean-IsSound w now s
Step-IsSound (finish w before after lock now t e f) s =
    finish-IsSound w before after lock now t s e f

pub Reach-IsSound : {w w' : World} → IsSound w → Reach w w' → IsSound w'
Reach-IsSound s here = s
Reach-IsSound s (next r st) = Step-IsSound st (Reach-IsSound s r)

abbrev pub initial : ℕ → ℕ → ℕ → World
initial period max limit = record { tracker = tracker_new period max limit; locks = [] }

pub initial-IsSound :
    (period max limit : ℕ) → max < limit → max < 2 ^ 16 → IsSound (initial period max limit)
unfolding tracker_new
initial-IsSound period max limit h w = record {
  clients = λ k c e. absurd (cc);
  exact = λ k x. refl;
  limits = h;
  word = w;
}

-- From a new tracker with admissible limits, in every world that is reached: at most one lock is held
-- for an xid of a client.
pub held_at_most_once :
    (period max limit : ℕ) (w : World)
    → max < limit
    → max < 2 ^ 16
    → Reach (initial period max limit) w
    → (k : String) (x : ℕ) → held k x w.locks ≤ 1
held_at_most_once period max limit w h u r k x =
    held-le-one w (Reach-IsSound (initial-IsSound period max limit h u) r) k x

-- While a lock for an xid of a client is held, another request with it is refused as already there,
-- at any time; and a request always gets an answer.
module _ (w : World) (k : String) (xid now : ℕ) (s : IsSound w) where
  refused :
      (c : ClientTransactions)
      → 0 < known xid c.transactions
      → (r : Result (Unit {0}) TransactionError) → Added xid c r (add_transaction xid now c).1
      → r ≡ err already_exists
  refused c h (ok u) a = absurd (omega (arith, a.0))
  refused c h (err already_exists) a = refl
  refused c h (err too_many_requests) a = absurd (omega (arith, a.0))

  pub retransmission_refused :
      0 < held k xid w.locks
      → (t : TransactionTracker) × (start_transaction k xid now w.tracker
          ≡ some (err already_exists, t))
  retransmission_refused h =
      let (c, e, serves) = start-Serves w k xid now s in
      let r =
        refused c
          (omega (arith, s.exact k xid, serves.exact xid, running-le-known xid c.transactions)) _
          (add_transaction-Added xid now c serves.valid) in
      (_, e ∙ ap some (add_err w k xid now c already_exists r))
