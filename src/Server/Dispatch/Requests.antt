-- ===== src/Server/Dispatch/Requests.antt =====
-- `handle_rpc_message` of crates/nfs3_server/src/rpcwire.rs on any bytes: what it does to the state.
use Prim.Native.String.{String}
use nfs.Prelude.{ℕ, not, ◌≡◌, refl, Option, none, some, List, Result, ok, err, ◌==◌}
use nfs.Xdr.Codec.{Error}
use nfs.Nfs3.Procedures.{NfsProgram}
use nfs.Rpc.Stats.{AuthFlavor, auth_null, auth_unix, auth_short, auth_des}
use nfs.Rpc.Auth.{OpaqueAuth, AuthUnix, auth_unix_codec}
use nfs.Rpc.Replies.{AcceptStatData}
use nfs.Tracker.Client.{TransactionError}
use nfs.Tracker.Registry.{TransactionTracker, TransactionLock, start_transaction}
use nfs.Vfs.Action.{Action, Moves, pure-Moves, bind-Moves, if-Moves}
use nfs.Vfs.FileSystem.{read_only}
use nfs.Handlers.Context.{RpcContext}
use nfs.Handlers.Nfs.Effects.{Reads, Writes}
use nfs.Server.Messages.{IncomingRpcMessage, WireError, Handled, try_from}
use nfs.Server.Programs.{Shared, handler_of}
use nfs.Server.Dispatch.{
  pure, ServerState, on_shared, locked, lock_transaction, unlocked, holding, with_auth,
  authenticated, under_lock, in_context, received, handle_rpc_message,
}
use nfs.Server.Dispatch.Effects.{
  OnVfs, Leads, dispatch-Moves, into_error_reply-Moves, into_rpc_mismatch-Moves,
}
use nfs.Server.Dispatch.Procedures.{read_write-Leads, read_only-Leads}

-- A property of the state of the file system, of the state of the server.
abbrev pub OnState : {S : Type 0} → (S → Type 0) → ServerState S → Type 0
OnState P s = P s.shared.vfs

module _ {S : Type 0} (P Q : S → Type 0) (weaker : (s : S) → P s → Q s) where
  weaker_state : (s : ServerState S) → OnState P s → OnState Q s
  weaker_state s = weaker s.shared.vfs

  locked-keeps :
      (s : ServerState S)
      (o : Option (Result TransactionLock TransactionError × TransactionTracker))
      → P s.shared.vfs
      → P ((locked s o).1.shared.vfs)
  locked-keeps s none p = p
  locked-keeps s (some (r, t)) p = p

  lock-Moves :
      (client_addr : String) (xid now : ℕ)
      → Moves (OnState P) (OnState P) (lock_transaction client_addr xid now)
  unfolding lock_transaction
  lock-Moves client_addr xid now = record {
    leads = λ s p. locked-keeps s (start_transaction client_addr xid now s.tracker) p;
  }

  unlocked-keeps :
      {A : Type 0} (a : Option A) (s : ServerState S) (o : Option TransactionTracker)
      → Q s.shared.vfs
      → Q ((unlocked a s o).1.shared.vfs)
  unlocked-keeps a s none q = q
  unlocked-keeps a s (some t) q = q

  holding-Moves :
      {A : Type 0} (lock : TransactionLock) (now : ℕ) (m : Action (Shared S) A)
      → Moves (OnVfs P) (OnVfs Q) m
      → Moves (OnState P) (OnState Q) (holding lock now (on_shared m))
  unfolding holding on_shared
  holding-Moves lock now m h = record {
    leads = λ s p. unlocked-keeps (m s.shared).0 _ _ (h.leads s.shared p);
  }

-- The contexts with the credentials of a call, and the programs there.
module _ {S H I J : Type 0} (context : RpcContext S H I J) (P Q : S → Type 0)
    (weaker : (s : S) → P s → Q s)
    (by_path : (path : List ℕ) → Moves P P (context.vfs.lookup_by_path path))
    (leads : (auth : AuthUnix) (xid : ℕ) (p : NfsProgram)
      → Leads
          (record context { auth = auth })
          P
          Q
          (handler_of (record context { auth = auth }) xid p))
    (now later : ℕ) where
  stop : (a : Handled) → Moves (OnState P) (OnState Q) (pure a)
  stop a = pure-Moves _ _ a (weaker_state P Q weaker)

  under_lock-Moves :
      (auth : AuthUnix) (m : IncomingRpcMessage)
      (r : Result TransactionLock (Option AcceptStatData))
      → Moves (OnState P) (OnState Q) (under_lock (record context { auth = auth }) later m r)
  under_lock-Moves auth m (ok lock) =
      holding-Moves P Q weaker lock later _
        (dispatch-Moves (record context { auth = auth }) P Q weaker by_path (leads auth) m)
  under_lock-Moves auth m (err (some stat)) =
      into_error_reply-Moves _ _ (weaker_state P Q weaker) m stat
  under_lock-Moves auth m (err none) = stop _

  with_lock-Moves :
      (auth : AuthUnix) (m : IncomingRpcMessage)
      → Moves (OnState P) (OnState Q) (in_context now later m (ok (record context { auth = auth })))
  with_lock-Moves auth m =
      bind-Moves _ _ (OnState P) _ _ (weaker_state P Q weaker) (lock-Moves P Q weaker _ _ now)
        (under_lock-Moves auth m)

  with_auth-Moves :
      (m : IncomingRpcMessage) (r : Result (AuthUnix × ℕ × List ℕ) Error)
      → Moves (OnState P) (OnState Q) (in_context now later m (with_auth context r))
  with_auth-Moves m (ok (auth, n, rest)) = with_lock-Moves auth m
  with_auth-Moves m (err e) = stop _

  authenticated-Moves :
      (m : IncomingRpcMessage) (cred : OpaqueAuth) (flavor : AuthFlavor)
      → cred.flavor ≡ flavor
      → Moves (OnState P) (OnState Q) (in_context now later m (authenticated context cred))
  unfolding authenticated
  authenticated-Moves m cred auth_unix e =
      rw e (with_auth-Moves m (auth_unix_codec.unpack cred.body))
  authenticated-Moves m cred auth_null e = rw e (with_lock-Moves context.auth m)
  authenticated-Moves m cred auth_short e = rw e (with_lock-Moves context.auth m)
  authenticated-Moves m cred auth_des e = rw e (with_lock-Moves context.auth m)

  received-Moves :
      (r : Result IncomingRpcMessage WireError)
      → Moves (OnState P) (OnState Q) (received context now later r)
  received-Moves (err e) = stop _
  received-Moves (ok m) =
      if-Moves _ _ (not (m.body.rpcvers == 2)) _ _
        (into_rpc_mismatch-Moves _ _ (weaker_state P Q weaker) m)
        (authenticated-Moves m m.body.cred m.body.cred.flavor refl)

  request-Moves :
      (packed : List ℕ)
      → Moves (OnState P) (OnState Q) (handle_rpc_message context now later packed)
  unfolding handle_rpc_message
  request-Moves packed = received-Moves (try_from packed)

module _ {S H I J : Type 0} (context : RpcContext S H I J) (now later : ℕ) where
  -- If the operations of a file system that read keep `P` and `Q`, those that write lead from `P` to
  -- `Q`, and `Q` is weaker than `P`, then any bytes that arrive as a message lead the file system from
  -- `P` to `Q`, whatever the reply, and even if there is none.
  pub handle_rpc_message-Moves :
      (P Q : S → Type 0)
      → ((s : S) → P s → Q s)
      → ((path : List ℕ) → Moves P P (context.vfs.lookup_by_path path))
      → Reads context.vfs P
      → Reads context.vfs Q
      → Writes context.vfs P Q
      → (packed : List ℕ)
      → Moves (OnState P) (OnState Q) (handle_rpc_message context now later packed)
  handle_rpc_message-Moves P Q weaker by_path reads reads_after writes =
      request-Moves context P Q weaker by_path
        (λ auth.
          read_write-Leads (record context { auth = auth }) P Q weaker reads reads_after writes)
        now later

  -- If a file system says that it is read-only, then any bytes that arrive as a message keep what its
  -- operations that read keep, whatever those that write would do.
  pub handle_rpc_message-read_only :
      (P : S → Type 0)
      → context.vfs.capabilities ≡ read_only
      → ((path : List ℕ) → Moves P P (context.vfs.lookup_by_path path))
      → Reads context.vfs P
      → (packed : List ℕ)
      → Moves (OnState P) (OnState P) (handle_rpc_message context now later packed)
  handle_rpc_message-read_only P only by_path reads =
      request-Moves context P P (λ s p. p) by_path
        (λ auth. read_only-Leads (record context { auth = auth }) P reads only) now later
