-- ===== src/Server/Dispatch.antt =====
-- `handle_rpc_message` of crates/nfs3_server/src/rpcwire.rs: a call from its bytes to its reply. The
-- state is that of the file system with the mount signals, and the tracker of transactions.

pub mod Effects
pub mod Procedures
pub mod Requests
pub mod Locks
pub mod ReadOnly
use Prim.Native.String.{String}
use nfs.Prelude.{ℕ, not, Option, none, some, List, Result, ok, err, ◌==◌, if◌then◌else◌}
use nfs.Xdr.Codec.{Error}
use nfs.Rpc.Stats.{auth_unix}
use nfs.Rpc.Auth.{OpaqueAuth, AuthUnix, auth_unix_codec}
use nfs.Rpc.Replies.{AcceptStatData}
use nfs.Tracker.Client.{TransactionError, already_exists, too_many_requests}
use nfs.Tracker.Registry.{TransactionTracker, TransactionLock, start_transaction, drop_lock}
use nfs.Vfs.Action.{Action, pure, ◌>>=◌}
use nfs.Handlers.Context.{RpcContext}
use nfs.Server.Messages.{
  IncomingRpcMessage, Handled, WireError, no_reply, xdr, try_from, into_rpc_mismatch,
  into_error_reply,
}
use nfs.Server.Programs.{Shared, handle_portmap, handle_mount, handle_nfs}

pub record ServerState (S : Type 0) : Type 0 where
  pub shared : Shared S
  pub tracker : TransactionTracker

unfoldable pub on_shared : {S A : Type 0} → Action (Shared S) A → Action (ServerState S) A
on_shared m s = let (a, shared') = m s.shared in (a, record s { shared = shared' })

-- The error of `lock_transaction`: `none` is a retransmission.
abbrev pub lock_result :
    Result TransactionLock TransactionError → Result TransactionLock (Option AcceptStatData)
lock_result (ok lock) = ok lock
lock_result (err already_exists) = err none
lock_result (err too_many_requests) = err (some AcceptStatData.system_err)

abbrev pub locked :
    {S : Type 0}
    → ServerState S
    → Option (Result TransactionLock TransactionError × TransactionTracker)
    → Option (Result TransactionLock (Option AcceptStatData)) × ServerState S
locked s none = (none, s)
locked s (some (r, t)) = (some (lock_result r), record s { tracker = t })

unfoldable pub lock_transaction :
    {S : Type 0}
    → String
    → ℕ
    → ℕ
    → Action (ServerState S) (Result TransactionLock (Option AcceptStatData))
lock_transaction client_addr xid now s = locked s (start_transaction client_addr xid now s.tracker)

-- The end of the lock's life at the time `now`, also where a handler panicked.
abbrev pub unlocked :
    {S A : Type 0} → Option A → ServerState S → Option TransactionTracker → Option A × ServerState S
unlocked a s none = (none, s)
unlocked a s (some t) = (a, record s { tracker = t })

unfoldable pub holding :
    {S A : Type 0} → TransactionLock → ℕ → Action (ServerState S) A → Action (ServerState S) A
holding lock now m s = let (a, s') = m s in unlocked a s' (drop_lock lock now s'.tracker)

module _ {S H I J : Type 0} (context : RpcContext S H I J) where
  abbrev pub with_auth :
      Result (AuthUnix × ℕ × List ℕ) Error → Result (RpcContext S H I J) WireError
  with_auth (ok (auth, n, rest)) = ok (record context { auth = auth })
  with_auth (err e) = err (xdr e)

  -- The context with the credentials of the call.
  unfoldable pub authenticated : OpaqueAuth → Result (RpcContext S H I J) WireError
  authenticated cred = elim cred.flavor [
    | auth_unix ↦ with_auth (auth_unix_codec.unpack cred.body)
    | _ ↦ ok context
  ]

-- The `match` on the number of the program. The programs 100227, 100270 and 200024 are refused like
-- any other that is not known.
unfoldable pub dispatch :
    {S H I J : Type 0} → RpcContext S H I J → IncomingRpcMessage → Action (Shared S) Handled
dispatch context m =
    if m.body.prog == 100000
    then handle_portmap context m
    else if m.body.prog == 100005
    then handle_mount context m
    else if m.body.prog == 100003
    then handle_nfs context m
    else into_error_reply m AcceptStatData.prog_unavail

module _ {S H I J : Type 0} (context : RpcContext S H I J) (later : ℕ) where
  abbrev pub under_lock :
      IncomingRpcMessage
      → Result TransactionLock (Option AcceptStatData)
      → Action (ServerState S) Handled
  under_lock m (ok lock) = holding lock later (on_shared (dispatch context m))
  under_lock m (err (some stat)) = into_error_reply m stat
  under_lock m (err none) = pure (ok no_reply)

-- A call is received at the time `now`, and its lock is dropped at the time `later`.
module _ {S H I J : Type 0} (now later : ℕ) where
  abbrev pub in_context :
      IncomingRpcMessage → Result (RpcContext S H I J) WireError → Action (ServerState S) Handled
  in_context m (err e) = pure (err e)
  in_context m (ok context) = do
    lock ← lock_transaction context.client_addr m.xid now
    under_lock context later m lock

module _ {S H I J : Type 0} (context : RpcContext S H I J) (now later : ℕ) where
  abbrev pub received : Result IncomingRpcMessage WireError → Action (ServerState S) Handled
  received (err e) = pure (err e)
  received (ok m) =
      if not (m.body.rpcvers == 2)
      then into_rpc_mismatch m
      else in_context now later m (authenticated context m.body.cred)

  unfoldable pub handle_rpc_message : List ℕ → Action (ServerState S) Handled
  handle_rpc_message packed = received (try_from packed)
