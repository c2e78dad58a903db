-- ===== src/Examples/Tracking.antt =====
-- The theorems about crates/nfs3_server/src/transaction_tracker.rs at a client that sent one request.
use nfs.Prelude.{◌≤◌, ◌≡◌, refl, some, List, [], ◌∷◌, ok, err, arith}
use nfs.Tracker.Client.{
  already_exists, Transaction, in_progress, completed, ClientTransactions, add_transaction,
  complete_transaction, binary_search, find_transaction, new, started,
}
use nfs.Tracker.Client.View.{IsValid}
use nfs.Tracker.Client.Search.{Located, find_transaction-Located, find_transaction-eq-search}
use nfs.Tracker.Client.Operations.{
  Added, Completed, add_transaction-Added, add_transaction-IsValid, complete_transaction-Completed,
}
use nfs.Tracker.Registry.{
  TransactionTracker, TransactionLock, start_transaction, drop_lock, tracker_new, insert,
}
use nfs.Tracker.Registry.Exclusion.{held, World, start, Reach, here, next, IsSound}
use nfs.Tracker.Registry.Soundness.{drop_lock-total}
use nfs.Tracker.Registry.AtMostOnce.{
  initial, initial-IsSound, Reach-IsSound, held_at_most_once, retransmission_refused,
}

-- A client with one request in progress and one completed.
abbrev two_requests : List Transaction
two_requests =
    record { xid = 4; state = completed 90 } ∷ record { xid = 7; state = in_progress } ∷ []

abbrev client : ClientTransactions
client = record {
  transactions = two_requests;
  last_active = 100;
  active_transactions = 1;
  max_active_transactions = 2;
  trim_limit = 4;
}

client-IsValid : IsValid client
client-IsValid = record {
  sorted = (omega arith, (omega arith, tt));
  counted = refl;
  bounded = omega arith;
  limits = omega arith;
  word = omega arith;
}

find_transaction_example : Located 5 0 two_requests (find_transaction 5 two_requests)
find_transaction_example = find_transaction-Located 5 two_requests client-IsValid.sorted

find_as_search_example : find_transaction 5 two_requests ≡ binary_search 5 0 two_requests
find_as_search_example = find_transaction-eq-search 5 two_requests client-IsValid.sorted

add_transaction_example :
    Added 9 client (add_transaction 9 120 client).0 (add_transaction 9 120 client).1
add_transaction_example = add_transaction-Added 9 120 client client-IsValid

add_keeps_example : IsValid (add_transaction 9 120 client).1
add_keeps_example = add_transaction-IsValid 9 120 client client-IsValid

complete_transaction_example :
    (c : ClientTransactions) × (complete_transaction 7 120 client ≡ some c) × Completed 7 client c
complete_transaction_example = complete_transaction-Completed 7 120 client client-IsValid refl

-- The tracker after a first request.
abbrev lock : TransactionLock
lock = record { client_addr = "10.0.0.1:700"; xid = 7 }

abbrev one_request : TransactionTracker
one_request = record (tracker_new 60 2 4) {
  transactions =
      insert "10.0.0.1:700"
        (record {
          transactions = started 7 ∷ [];
          last_active = 100;
          active_transactions = 1;
          max_active_transactions = 2;
          trim_limit = 4;
        })
        (tracker_new 60 2 4).transactions;
}

abbrev one_lock : World
one_lock = record { tracker = one_request; locks = lock ∷ [] }

one_request-started :
    start_transaction "10.0.0.1:700" 7 100 (tracker_new 60 2 4) ≡ some (ok lock, one_request)
unfolding start_transaction new add_transaction tracker_new
one_request-started = refl

one_lock-reached : Reach (initial 60 2 4) one_lock
one_lock-reached =
    next here (start (initial 60 2 4) "10.0.0.1:700" 7 100 lock one_request one_request-started)

one_lock-IsSound : IsSound one_lock
one_lock-IsSound =
    Reach-IsSound (initial-IsSound 60 2 4 (omega arith) (omega arith)) one_lock-reached

held_example : held "10.0.0.1:700" 7 one_lock.locks ≤ 1
held_example =
    held_at_most_once 60 2 4 one_lock (omega arith) (omega arith) one_lock-reached "10.0.0.1:700" 7

retransmission_example :
    (t : TransactionTracker) × (start_transaction "10.0.0.1:700" 7 150 one_lock.tracker
      ≡ some (err already_exists, t))
retransmission_example =
    retransmission_refused one_lock "10.0.0.1:700" 7 150 one_lock-IsSound (omega arith)

drop_lock_example : (t : TransactionTracker) × (drop_lock lock 180 one_lock.tracker ≡ some t)
drop_lock_example = drop_lock-total one_lock [] [] lock 180 one_lock-IsSound refl
