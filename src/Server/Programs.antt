-- ===== src/Server/Programs.antt =====
-- `handle` of crates/nfs3_server/src/rpcwire.rs, and `handle_portmap`, `handle_mount` and `handle_nfs`
-- of the handlers in crates/nfs3_server/src.
use nfs.Prelude.{
  ℕ, Bool, true, false, not, Option, none, some, List, [], ◌∷◌, ◌++◌, Result, ok, err, ◌==◌,
  if◌then◌else◌,
}
use nfs.Xdr.Codec.{Codec, Error}
use nfs.Xdr.Primitives.{u32_codec, void_codec}
use nfs.Xdr.Chain.{list_codec}
use nfs.Rpc.Replies.{AcceptStatData}
use nfs.Nfs3.Status.{Nfsstat3}
use nfs.Nfs3.Procedures
use nfs.Nfs3.Procedures.{
  NfsProgram, Arguments, ResultOf, arguments_codec, result_codec, nfs_program_try_from,
}
use nfs.Portmap.{PmapProg, mapping_codec, pmapproc_null, pmapproc_getport, pmap_prog_try_from}
use nfs.Mount.{
  Mountres3, mounted, refused, mountres3_codec, mnt3err_inval, mnt3err_noent, ExportNode,
  export_node_codec, dirpath_codec, MountProgram, mountproc3_null, mountproc3_mnt, mountproc3_umnt,
  mountproc3_umntall, mountproc3_export, mount_program_try_from,
}
use nfs.Vfs.Action.{Action, pure, ◌>>=◌, on_result}
use nfs.Vfs.Handle.{fh_to_nfs}
use nfs.Handlers.Context.{RpcContext}
use nfs.Handlers.Nfs.Common.{Procedure}
use nfs.Handlers.Nfs.Read
use nfs.Handlers.Nfs.Write
use nfs.Handlers.Nfs.Names
use nfs.Handlers.Nfs.Listing
use nfs.Server.Text.{from_utf8, as_bytes, strip_prefix, trim_path}
use nfs.Server.Messages.{
  IncomingRpcMessage, Handled, take_data, into_success_reply, into_error_reply,
}

abbrev pub nothing_left : List ℕ → Bool
nothing_left [] = true
nothing_left (b ∷ bytes) = false

-- `handle`, from what the arguments were unpacked to on.
abbrev pub handle_unpacked :
    {S A B : Type 0}
    → Codec B
    → (A → Action S B)
    → IncomingRpcMessage
    → Result (A × ℕ × List ℕ) Error
    → Action S Handled
handle_unpacked c handler m (err e) = into_error_reply m AcceptStatData.garbage_args
handle_unpacked c handler m (ok (args, n, rest)) =
    if nothing_left rest
    then (handler args >>= λ result. into_success_reply c m result)
    else into_error_reply m AcceptStatData.garbage_args

unfoldable pub handle :
    {S A B : Type 0} → Codec A → Codec B → (A → Action S B) → IncomingRpcMessage → Action S Handled
handle args_codec c handler m = handle_unpacked c handler m (args_codec.unpack (take_data m))

-- What the server keeps of the file system, and the signals that were sent for mounts.
pub record Shared (S : Type 0) : Type 0 where
  pub vfs : S
  pub mount_signals : List Bool

unfoldable pub on_vfs : {S A : Type 0} → Action S A → Action (Shared S) A
on_vfs m s = let (a, vfs') = m s.vfs in (a, record s { vfs = vfs' })

module _ {S H I J : Type 0} (context : RpcContext S H I J) where
  -- `chan.send(…)`, if there is a channel.
  unfoldable pub signal : Bool → Action (Shared S) (Unit {0})
  signal value s = (
    some tt,
    if context.has_mount_signal
        then record s { mount_signals = s.mount_signals ++ (value ∷ []) }
        else s,
  )

  abbrev pub serve_portmap : IncomingRpcMessage → Option PmapProg → Action (Shared S) Handled
  serve_portmap m (some pmapproc_null) = handle void_codec void_codec (λ _. pure tt) m
  serve_portmap m (some pmapproc_getport) =
      handle mapping_codec u32_codec (λ _. pure context.local_port) m
  serve_portmap m _ = into_error_reply m AcceptStatData.proc_unavail

  unfoldable pub handle_portmap : IncomingRpcMessage → Action (Shared S) Handled
  handle_portmap m =
      if not (m.body.vers == 2)
      then into_error_reply m (AcceptStatData.prog_mismatch 2 2)
      else serve_portmap m (pmap_prog_try_from m.body.proc)

  -- The reply to a look-up of the path.
  unfoldable pub mount_found : Result H Nfsstat3 → Action (Shared S) Mountres3
  mount_found found =
      on_result found
        (λ fileid. do
          _ ← signal true
          pure (
              mounted (record {
                fhandle = fh_to_nfs context.file_handle context.file_handle_converter fileid;
                auth_flavors = 0 ∷ 1 ∷ [];
              })))
        (λ e. pure (refused mnt3err_noent))

  -- From `path.trim_start_matches` on; what is left of a string behind a prefix is a string.
  abbrev pub mount_path : Option (List (List ℕ)) → Action (Shared S) Mountres3
  mount_path none = pure (refused mnt3err_inval)
  mount_path (some path) = do
    found ← on_vfs (context.vfs.lookup_by_path (as_bytes (trim_path path)))
    mount_found found

  abbrev pub mount_stripped : Option (List ℕ) → Action (Shared S) Mountres3
  mount_stripped none = pure (refused mnt3err_noent)
  mount_stripped (some rest) = mount_path (from_utf8 rest)

  abbrev pub mount_dirpath : List ℕ → Option (List (List ℕ)) → Action (Shared S) Mountres3
  mount_dirpath path none = pure (refused mnt3err_inval)
  mount_dirpath path (some _) = mount_stripped (strip_prefix context.export_name path)

  unfoldable pub mnt : List ℕ → Action (Shared S) Mountres3
  mnt path = mount_dirpath path (from_utf8 path)

  abbrev pub signal_umnt : Option (List (List ℕ)) → Action (Shared S) (Unit {0})
  signal_umnt none = pure tt
  signal_umnt (some _) = signal false

  unfoldable pub umnt : List ℕ → Action (Shared S) (Unit {0})
  umnt path = signal_umnt (from_utf8 path)

  abbrev pub export : List ExportNode
  export = record { ex_dir = context.export_name; ex_groups = [] } ∷ []

  abbrev pub serve_mount : IncomingRpcMessage → Option MountProgram → Action (Shared S) Handled
  serve_mount m (some mountproc3_null) = handle void_codec void_codec (λ _. pure tt) m
  serve_mount m (some mountproc3_mnt) = handle dirpath_codec mountres3_codec mnt m
  serve_mount m (some mountproc3_umnt) = handle dirpath_codec void_codec umnt m
  serve_mount m (some mountproc3_umntall) = handle void_codec void_codec (λ _. signal false) m
  serve_mount m (some mountproc3_export) =
      handle void_codec (list_codec export_node_codec) (λ _. pure export) m
  serve_mount m _ = into_error_reply m AcceptStatData.proc_unavail

  unfoldable pub handle_mount : IncomingRpcMessage → Action (Shared S) Handled
  handle_mount m =
      if not (m.body.vers == 3)
      then into_error_reply m (AcceptStatData.prog_mismatch 3 3)
      else serve_mount m (mount_program_try_from m.body.proc)

  -- A procedure with the types that its arguments and its result have. RMDIR is served as REMOVE.
  abbrev pub Served : Type 0
  Served = (p : NfsProgram) × Procedure S p

  abbrev pub handler_of : ℕ → NfsProgram → Option Served
  handler_of xid Procedures.nfsproc3_null = some (Procedures.nfsproc3_null, Read.null context)
  handler_of xid Procedures.nfsproc3_getattr =
      some (Procedures.nfsproc3_getattr, Read.getattr context)
  handler_of xid Procedures.nfsproc3_setattr =
      some (Procedures.nfsproc3_setattr, Write.setattr context)
  handler_of xid Procedures.nfsproc3_lookup = some (Procedures.nfsproc3_lookup, Read.lookup context)
  handler_of xid Procedures.nfsproc3_access = some (Procedures.nfsproc3_access, Read.access context)
  handler_of xid Procedures.nfsproc3_readlink =
      some (Procedures.nfsproc3_readlink, Read.readlink context)
  handler_of xid Procedures.nfsproc3_read = some (Procedures.nfsproc3_read, Read.read context)
  handler_of xid Procedures.nfsproc3_write = some (Procedures.nfsproc3_write, Write.write context)
  handler_of xid Procedures.nfsproc3_create =
      some (Procedures.nfsproc3_create, Write.create context)
  handler_of xid Procedures.nfsproc3_mkdir = some (Procedures.nfsproc3_mkdir, Names.mkdir context)
  handler_of xid Procedures.nfsproc3_symlink =
      some (Procedures.nfsproc3_symlink, Names.symlink context)
  handler_of xid Procedures.nfsproc3_mknod = none
  handler_of xid Procedures.nfsproc3_remove =
      some (Procedures.nfsproc3_remove, Names.remove context)
  handler_of xid Procedures.nfsproc3_rmdir = some (Procedures.nfsproc3_remove, Names.remove context)
  handler_of xid Procedures.nfsproc3_rename =
      some (Procedures.nfsproc3_rename, Names.rename context)
  handler_of xid Procedures.nfsproc3_link = none
  handler_of xid Procedures.nfsproc3_readdir =
      some (Procedures.nfsproc3_readdir, Listing.readdir context xid)
  handler_of xid Procedures.nfsproc3_readdirplus =
      some (Procedures.nfsproc3_readdirplus, Listing.readdirplus context)
  handler_of xid Procedures.nfsproc3_fsstat = some (Procedures.nfsproc3_fsstat, Read.fsstat context)
  handler_of xid Procedures.nfsproc3_fsinfo = some (Procedures.nfsproc3_fsinfo, Read.fsinfo context)
  handler_of xid Procedures.nfsproc3_pathconf =
      some (Procedures.nfsproc3_pathconf, Read.pathconf context)
  handler_of xid Procedures.nfsproc3_commit = none

  abbrev pub serve_nfs : IncomingRpcMessage → Option Served → Action (Shared S) Handled
  serve_nfs m none = into_error_reply m AcceptStatData.proc_unavail
  serve_nfs m (some (p, procedure)) =
      handle (arguments_codec p) (result_codec p) (λ args. on_vfs (procedure args)) m

  abbrev pub serve_program : IncomingRpcMessage → Option NfsProgram → Action (Shared S) Handled
  serve_program m none = into_error_reply m AcceptStatData.proc_unavail
  serve_program m (some proc) = serve_nfs m (handler_of m.xid proc)

  unfoldable pub handle_nfs : IncomingRpcMessage → Action (Shared S) Handled
  handle_nfs m =
      if not (m.body.vers == 3)
      then into_error_reply m (AcceptStatData.prog_mismatch 3 3)
      else serve_program m (nfs_program_try_from m.body.proc)
