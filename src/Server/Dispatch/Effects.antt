-- ===== src/Server/Dispatch/Effects.antt =====
-- What a call does to the state of the file system that crates/nfs3_server/src/rpcwire.rs serves, from
-- what the procedures of the file system do.
use nfs.Prelude.{
  ℕ, not, Bool, true, false, Option, none, some, List, [], ◌∷◌, ◌++◌, if◌then◌else◌, Result, ok,
  err, ◌==◌, ltb, ◌+◌, ◌^◌,
}
use nfs.Xdr.Codec.{Codec, Error}
use nfs.Xdr.Primitives.{void_codec}
use nfs.Nfs3.Procedures.{NfsProgram}
use nfs.Portmap.{
  PmapProg, pmapproc_null, pmapproc_getport, pmapproc_set, pmapproc_unset, pmapproc_dump,
  pmapproc_callit,
}
use nfs.Mount.{
  MountProgram, mountproc3_null, mountproc3_mnt, mountproc3_dump, mountproc3_umnt,
  mountproc3_umntall, mountproc3_export,
}
use nfs.Rpc.Messages.{RpcMsg, rpc_msg_codec}
use nfs.Rpc.Replies.{AcceptStatData}
use nfs.Vfs.Action.{
  Action, pure, Moves, pure-Moves, panic-Moves, bind-Moves, on_result-Moves, if-Moves,
}
use nfs.Handlers.Context.{RpcContext}
use nfs.Server.Text.{from_utf8, strip_prefix}
use nfs.Server.Messages.{
  IncomingRpcMessage, pack, into_success_reply, into_rpc_mismatch, into_error_reply, take_data,
}
use nfs.Server.Programs.{
  serve_portmap, mount_dirpath, signal_umnt, serve_program, Shared, handle, handle_unpacked,
  nothing_left, on_vfs, signal, handle_portmap, mount_found, mount_path, mount_stripped, mnt, umnt,
  serve_mount, handle_mount, Served, handler_of, serve_nfs, handle_nfs,
}
use nfs.Server.Dispatch.{dispatch}

-- A property of the state of the file system, of what the server shares.
abbrev pub OnVfs : {S : Type 0} → (S → Type 0) → Shared S → Type 0
OnVfs P s = P s.vfs

-- A procedure that is served leads from one property to another.
abbrev pub Leads :
    {S H I J : Type 0} (context : RpcContext S H I J) (P Q : S → Type 0)
    → Option (Served context)
    → Type 0
Leads context P Q none = Unit {0}
Leads context P Q (some (p, procedure)) = (args : _) → Moves P Q (procedure args)

module _ {S : Type 0} (P Q : S → Type 0) (weaker : (s : S) → P s → Q s) where
  pub pack-Moves :
      {T : Type 0} (c : Codec T) (rpc : RpcMsg) (message : T) → Moves P Q (pack c rpc message)
  unfolding pack
  pack-Moves c rpc message =
      if-Moves P Q (ltb (rpc_msg_codec.packed_size rpc + c.packed_size message) (2 ^ 64)) _ _
        (pure-Moves P Q _ weaker) (panic-Moves P Q weaker)

  pub into_error_reply-Moves :
      (m : IncomingRpcMessage) (stat : AcceptStatData) → Moves P Q (into_error_reply m stat)
  unfolding into_error_reply
  into_error_reply-Moves m stat = pack-Moves void_codec _ tt

  pub into_rpc_mismatch-Moves : (m : IncomingRpcMessage) → Moves P Q (into_rpc_mismatch m)
  unfolding into_rpc_mismatch
  into_rpc_mismatch-Moves m = pack-Moves void_codec _ tt

  into_success_reply-Moves :
      {T : Type 0} (c : Codec T) (m : IncomingRpcMessage) (message : T)
      → Moves P Q (into_success_reply c m message)
  unfolding into_success_reply
  into_success_reply-Moves c m message = pack-Moves c _ message

module _ {S : Type 0} (P Q : S → Type 0) (weaker : (s : S) → P s → Q s) where
  handle_unpacked-Moves :
      {A B : Type 0} (c : Codec B) (handler : A → Action S B) (m : IncomingRpcMessage)
      (r : Result (A × ℕ × List ℕ) Error)
      → ((args : A) → Moves P Q (handler args))
      → Moves P Q (handle_unpacked c handler m r)
  handle_unpacked-Moves c handler m (err e) h = into_error_reply-Moves P Q weaker m _
  handle_unpacked-Moves c handler m (ok (args, n, rest)) h =
      if-Moves P Q (nothing_left rest) _ _
        (bind-Moves P Q Q _ _ (λ s q. q) (h args)
          (λ result. into_success_reply-Moves Q Q (λ s q. q) c m result))
        (into_error_reply-Moves P Q weaker m _)

  pub handle-Moves :
      {A B : Type 0} (args_codec : Codec A) (c : Codec B) (handler : A → Action S B)
      (m : IncomingRpcMessage)
      → ((args : A) → Moves P Q (handler args))
      → Moves P Q (handle args_codec c handler m)
  unfolding handle
  handle-Moves args_codec c handler m h =
      handle_unpacked-Moves c handler m (args_codec.unpack (take_data m)) h

module _ {S : Type 0} (P Q : S → Type 0) where
  pub on_vfs-Moves :
      {A : Type 0} (m : Action S A) → Moves P Q m → Moves (OnVfs P) (OnVfs Q) (on_vfs m)
  unfolding on_vfs
  on_vfs-Moves m h = record { leads = λ s p. h.leads s.vfs p }

module _ {S H I J : Type 0} (context : RpcContext S H I J) (P Q : S → Type 0)
    (weaker : (s : S) → P s → Q s) where
  weaker_vfs : (s : Shared S) → OnVfs P s → OnVfs Q s
  weaker_vfs s = weaker s.vfs

  refused :
      (m : IncomingRpcMessage) (stat : AcceptStatData)
      → Moves (OnVfs P) (OnVfs Q) (into_error_reply m stat)
  refused = into_error_reply-Moves (OnVfs P) (OnVfs Q) weaker_vfs

  handled :
      {A B : Type 0} (args_codec : Codec A) (c : Codec B) (handler : A → Action (Shared S) B)
      (m : IncomingRpcMessage)
      → ((args : A) → Moves (OnVfs P) (OnVfs Q) (handler args))
      → Moves (OnVfs P) (OnVfs Q) (handle args_codec c handler m)
  handled = handle-Moves (OnVfs P) (OnVfs Q) weaker_vfs

  done : {A : Type 0} (a : A) → Moves (OnVfs P) (OnVfs Q) (pure {S = Shared S} a)
  done a = pure-Moves _ _ a weaker_vfs

  signalled-Moves :
      (value sent : Bool) (s : Shared S)
      → P s.vfs
      → Q ((if sent then record s { mount_signals = s.mount_signals ++ (value ∷ []) } else s).vfs)
  signalled-Moves value true s p = weaker s.vfs p
  signalled-Moves value false s p = weaker s.vfs p

  signal-Moves : (value : Bool) → Moves (OnVfs P) (OnVfs Q) (signal context value)
  unfolding signal
  signal-Moves value = record { leads = λ s p. signalled-Moves value context.has_mount_signal s p }

  serve_portmap-Moves :
      (m : IncomingRpcMessage) (o : Option PmapProg)
      → Moves (OnVfs P) (OnVfs Q) (serve_portmap context m o)
  serve_portmap-Moves m (some pmapproc_null) = handled _ _ _ m (λ _. done _)
  serve_portmap-Moves m (some pmapproc_getport) = handled _ _ _ m (λ _. done _)
  serve_portmap-Moves m (some pmapproc_set) = refused m _
  serve_portmap-Moves m (some pmapproc_unset) = refused m _
  serve_portmap-Moves m (some pmapproc_dump) = refused m _
  serve_portmap-Moves m (some pmapproc_callit) = refused m _
  serve_portmap-Moves m none = refused m _

  portmap-Moves : (m : IncomingRpcMessage) → Moves (OnVfs P) (OnVfs Q) (handle_portmap context m)
  unfolding handle_portmap
  portmap-Moves m =
      if-Moves _ _ (not (m.body.vers == 2)) _ _ (refused m _) (serve_portmap-Moves m _)

  module _ (by_path : (path : List ℕ) → Moves P P (context.vfs.lookup_by_path path)) where
    mount_path-Moves :
        (o : Option (List (List ℕ))) → Moves (OnVfs P) (OnVfs Q) (mount_path context o)
    unfolding mount_found
    mount_path-Moves none = done _
    mount_path-Moves (some path) =
        bind-Moves _ _ (OnVfs P) _ _ weaker_vfs (on_vfs-Moves P P _ (by_path _)) (λ found.
          on_result-Moves _ _ found _ _
            (λ fileid.
              bind-Moves _ _ (OnVfs Q) _ _ (λ s q. q) (signal-Moves true)
                (λ _. pure-Moves _ _ _ (λ s q. q)))
            (λ e. done _))

    mount_stripped-Moves :
        (o : Option (List ℕ)) → Moves (OnVfs P) (OnVfs Q) (mount_stripped context o)
    mount_stripped-Moves none = done _
    mount_stripped-Moves (some rest) = mount_path-Moves (from_utf8 rest)

    mount_dirpath-Moves :
        (path : List ℕ) (o : Option (List (List ℕ)))
        → Moves (OnVfs P) (OnVfs Q) (mount_dirpath context path o)
    mount_dirpath-Moves path none = done _
    mount_dirpath-Moves path (some _) = mount_stripped-Moves (strip_prefix context.export_name path)

    mnt-Moves : (path : List ℕ) → Moves (OnVfs P) (OnVfs Q) (mnt context path)
    unfolding mnt
    mnt-Moves path = mount_dirpath-Moves path (from_utf8 path)

    signal_umnt-Moves :
        (o : Option (List (List ℕ))) → Moves (OnVfs P) (OnVfs Q) (signal_umnt context o)
    signal_umnt-Moves none = done _
    signal_umnt-Moves (some _) = signal-Moves false

    umnt-Moves : (path : List ℕ) → Moves (OnVfs P) (OnVfs Q) (umnt context path)
    unfolding umnt
    umnt-Moves path = signal_umnt-Moves (from_utf8 path)

    serve_mount-Moves :
        (m : IncomingRpcMessage) (o : Option MountProgram)
        → Moves (OnVfs P) (OnVfs Q) (serve_mount context m o)
    serve_mount-Moves m (some mountproc3_null) = handled _ _ _ m (λ _. done _)
    serve_mount-Moves m (some mountproc3_mnt) = handled _ _ _ m mnt-Moves
    serve_mount-Moves m (some mountproc3_umnt) = handled _ _ _ m umnt-Moves
    serve_mount-Moves m (some mountproc3_umntall) = handled _ _ _ m (λ _. signal-Moves false)
    serve_mount-Moves m (some mountproc3_export) = handled _ _ _ m (λ _. done _)
    serve_mount-Moves m (some mountproc3_dump) = refused m _
    serve_mount-Moves m none = refused m _

    mount-Moves : (m : IncomingRpcMessage) → Moves (OnVfs P) (OnVfs Q) (handle_mount context m)
    unfolding handle_mount
    mount-Moves m = if-Moves _ _ (not (m.body.vers == 3)) _ _ (refused m _) (serve_mount-Moves m _)

    module _
        (leads : (xid : ℕ) (p : NfsProgram) → Leads context P Q (handler_of context xid p)) where
      serve_nfs-Moves :
          (m : IncomingRpcMessage) (o : Option (Served context))
          → Leads context P Q o
          → Moves (OnVfs P) (OnVfs Q) (serve_nfs context m o)
      serve_nfs-Moves m none h = refused m _
      serve_nfs-Moves m (some (p, procedure)) h =
          handled _ _ _ m (λ args. on_vfs-Moves P Q _ (h args))

      serve_program-Moves :
          (m : IncomingRpcMessage) (o : Option NfsProgram)
          → Moves (OnVfs P) (OnVfs Q) (serve_program context m o)
      serve_program-Moves m none = refused m _
      serve_program-Moves m (some p) = serve_nfs-Moves m _ (leads m.xid p)

      nfs-Moves : (m : IncomingRpcMessage) → Moves (OnVfs P) (OnVfs Q) (handle_nfs context m)
      unfolding handle_nfs
      nfs-Moves m =
          if-Moves _ _ (not (m.body.vers == 3)) _ _ (refused m _) (serve_program-Moves m _)

      pub dispatch-Moves : (m : IncomingRpcMessage) → Moves (OnVfs P) (OnVfs Q) (dispatch context m)
      unfolding dispatch
      dispatch-Moves m = if-Moves _ _ (m.body.prog == 100000) _ _ (portmap-Moves m) (
          if-Moves _ _ (m.body.prog == 100005) _ _ (mount-Moves m)
            (if-Moves _ _ (m.body.prog == 100003) _ _ (nfs-Moves m) (refused m _)))
