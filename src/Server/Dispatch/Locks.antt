-- ===== src/Server/Dispatch/Locks.antt =====
-- `handle_rpc_message` of crates/nfs3_server/src/rpcwire.rs and the locks of its transactions.
use nfs.Prelude.{
  ℕ, ◌<◌, ◌≡◌, refl, ◌+◌, ◌^◌, ltb, ◌==◌, Bool, true, false, not, if◌then◌else◌, Option, some, List,
  [], ◌∷◌, Result, ok, err,
}
use nfs.Xdr.Codec.{Codec, Error}
use nfs.Rpc.Stats.{AuthFlavor, auth_null, auth_unix, auth_short, auth_des}
use nfs.Rpc.Auth.{OpaqueAuth, AuthUnix, auth_unix_codec}
use nfs.Rpc.Messages.{RpcMsg, rpc_msg_codec}
use nfs.Rpc.Replies.{AcceptStatData}
use nfs.Tracker.Client.{already_exists, too_many_requests}
use nfs.Tracker.Registry.{TransactionTracker}
use nfs.Tracker.Registry.Exclusion.{held, World, IsSound}
use nfs.Tracker.Registry.Soundness.{drop_lock-total, finish-IsSound}
use nfs.Tracker.Registry.AtMostOnce.{retransmission_refused, Outcome, world_after, start-Outcome}
use nfs.Vfs.Action.{Action, panic, pure, ◌>>=◌}
use nfs.Handlers.Context.{RpcContext}
use nfs.Server.Messages.{
  IncomingRpcMessage, WireError, no_reply, pack, try_from, into_rpc_mismatch, into_error_reply,
}
use nfs.Server.Programs.{Shared}
use nfs.Server.Dispatch.{
  ServerState, on_shared, lock_result, lock_transaction, holding, under_lock, in_context, with_auth,
  authenticated, received, handle_rpc_message,
}

module _ {S : Type 0} (w : World) where
  -- What is left of a tracker that fits the locks of the world.
  abbrev Restored : {A : Type 0} → Option A × ServerState S → Type 0
  Restored o = IsSound (record { tracker = o.1.tracker; locks = w.locks })

  if-Restored :
      {A : Type 0} (b : Bool) (m n : Action (ServerState S) A) (s : ServerState S)
      → Restored (m s)
      → Restored (n s)
      → Restored ((if b then m else n) s)
  if-Restored true m n s h k = h
  if-Restored false m n s h k = k

  module _ (s : ServerState S)
      (sound : IsSound (record { tracker = s.tracker; locks = w.locks })) where
    pack-Restored :
        {T : Type 0} (c : Codec T) (rpc : RpcMsg) (message : T) → Restored (pack c rpc message s)
    unfolding pack pure panic
    pack-Restored c rpc message =
        if-Restored (ltb (rpc_msg_codec.packed_size rpc + c.packed_size message) (2 ^ 64)) _ _ s
          sound sound

    error_reply-Restored :
        (m : IncomingRpcMessage) (stat : AcceptStatData) → Restored (into_error_reply m stat s)
    unfolding into_error_reply
    error_reply-Restored m stat = pack-Restored _ _ _

    mismatch-Restored : (m : IncomingRpcMessage) → Restored (into_rpc_mismatch m s)
    unfolding into_rpc_mismatch
    mismatch-Restored m = pack-Restored _ _ _

abbrev before : {S : Type 0} → World → Shared S → ServerState S
before w shared = record { shared = shared; tracker = w.tracker }

module _ {S H I J : Type 0} (context : RpcContext S H I J) (now later : ℕ) (w : World)
    (sound : IsSound w) (shared : Shared S) where
  under_lock-Restored :
      (m : IncomingRpcMessage) (p : Outcome)
      → IsSound (world_after w p)
      → Restored w
          (under_lock context later m (lock_result p.0) (record { shared = shared; tracker = p.1 }))
  unfolding holding on_shared pure
  under_lock-Restored m (ok lock, t) after =
      let (t', e) =
        drop_lock-total (record { tracker = t; locks = lock ∷ w.locks }) [] w.locks lock later after
          refl in
      rw e (
        finish-IsSound (record { tracker = t; locks = lock ∷ w.locks }) [] w.locks lock later t'
          after refl e)
  under_lock-Restored m (err already_exists, t) after = after
  under_lock-Restored m (err too_many_requests, t) after = error_reply-Restored w _ after m _

  with_lock-Restored :
      (m : IncomingRpcMessage) → Restored w (in_context now later m (ok context) (before w shared))
  unfolding ◌>>=◌ lock_transaction
  with_lock-Restored m =
      let (p, e, after) = start-Outcome w context.client_addr m.xid now sound in
      rw e (under_lock-Restored m p after)

module _ {S H I J : Type 0} (context : RpcContext S H I J) (now later : ℕ) (w : World)
    (sound : IsSound w) (shared : Shared S) where
  with_auth-Restored :
      (m : IncomingRpcMessage) (r : Result (AuthUnix × ℕ × List ℕ) Error)
      → Restored w (in_context now later m (with_auth context r) (before w shared))
  unfolding pure
  with_auth-Restored m (ok (auth, n, rest)) =
      with_lock-Restored (record context { auth = auth }) now later w sound shared m
  with_auth-Restored m (err e) = sound

  authenticated-Restored :
      (m : IncomingRpcMessage) (cred : OpaqueAuth) (flavor : AuthFlavor)
      → cred.flavor ≡ flavor
      → Restored w (in_context now later m (authenticated context cred) (before w shared))
  unfolding authenticated
  authenticated-Restored m cred auth_unix e =
      rw e (with_auth-Restored m (auth_unix_codec.unpack cred.body))
  authenticated-Restored m cred auth_null e =
      rw e (with_lock-Restored context now later w sound shared m)
  authenticated-Restored m cred auth_short e =
      rw e (with_lock-Restored context now later w sound shared m)
  authenticated-Restored m cred auth_des e =
      rw e (with_lock-Restored context now later w sound shared m)

  received-Restored :
      (r : Result IncomingRpcMessage WireError)
      → Restored w (received context now later r (before w shared))
  unfolding pure
  received-Restored (err e) = sound
  received-Restored (ok m) =
      if-Restored w (not (m.body.rpcvers == 2)) _ _ _ (mismatch-Restored w _ sound m)
        (authenticated-Restored m m.body.cred m.body.cred.flavor refl)

-- In a sound world, whatever bytes arrive as a message, and whatever the handlers do, panics included:
-- the message leaves a tracker that fits the locks that were held before. So the lock that it took, if
-- any, is given back, and no other one.
pub handle_rpc_message-IsSound :
    {S H I J : Type 0} (context : RpcContext S H I J) (now later : ℕ) (w : World)
    → IsSound w
    → (shared : Shared S) (packed : List ℕ)
    → IsSound (record {
      tracker =
          (handle_rpc_message context now later packed
            (record { shared = shared; tracker = w.tracker })).1.tracker;
      locks = w.locks;
    })
unfolding handle_rpc_message
handle_rpc_message-IsSound context now later w sound shared packed =
    received-Restored context now later w sound shared (try_from packed)

-- In a sound world, while a lock for an xid of a client is held: a message with this xid from this
-- client, of the right version of RPC and with credentials that can be read, is not answered, and
-- changes nothing but the tracker.
pub handle_rpc_message-retransmission :
    {S H I J : Type 0} (context : RpcContext S H I J) (now later : ℕ) (w : World)
    → IsSound w
    → (shared : Shared S) (packed : List ℕ) (m : IncomingRpcMessage) (context' : RpcContext S H I J)
    → try_from packed ≡ ok m
    → m.body.rpcvers ≡ 2
    → authenticated context m.body.cred ≡ ok context'
    → 0 < held context'.client_addr m.xid w.locks
    → (t : TransactionTracker) × (handle_rpc_message context now later packed
          (record { shared = shared; tracker = w.tracker })
        ≡ (some (ok no_reply), record { shared = shared; tracker = t }))
unfolding handle_rpc_message ◌>>=◌ lock_transaction pure
handle_rpc_message-retransmission context now later w sound shared packed m context' e version f h =
    let (t, g) = retransmission_refused w context'.client_addr m.xid now sound h in
    (t, rw (e, version, f, g) refl)
