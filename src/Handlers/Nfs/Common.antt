-- ===== src/Handlers/Nfs/Common.antt =====
-- What the procedures of crates/nfs3_server/src/nfs_handlers.rs share.
use nfs.Prelude.{List, ℕ, Option, none, Result, ok, err}
use nfs.Nfs3.Status.{Nfsstat3, Nfs3Result, failed}
use nfs.Nfs3.Attributes.{Fattr3}
use nfs.Nfs3.Data.{WccAttr, WccData}
use nfs.Nfs3.Procedures.{NfsProgram, Arguments, ResultOf}
use nfs.Vfs.Action.{Action, pure, ◌>>=◌, on_result}
use nfs.Vfs.Handle.{fh_from_nfs}
use nfs.Vfs.FileSystem.{option_from_result}
use nfs.Handlers.Context.{RpcContext}

-- A procedure is called with its arguments.
abbrev pub Procedure : Type 0 → NfsProgram → Type 0
Procedure S p = Arguments p → Action S (ResultOf p)

-- `wcc_data::default`
abbrev pub no_wcc : WccData
no_wcc = record { before = none; after = none }

abbrev pub to_wcc_attr : Result Fattr3 Nfsstat3 → Result WccAttr Nfsstat3
to_wcc_attr (ok v) = ok (record { size = v.size; mtime = v.mtime; ctime = v.ctime })
to_wcc_attr (err e) = err e

module _ {S H I J : Type 0} (context : RpcContext S H I J) where
  -- `fh_to_id!` with the default value of the failure, before the rest of a procedure.
  abbrev pub fh_to_id :
      {T E : Type 0} → List ℕ → E → (H → Action S (Nfs3Result T E)) → Action S (Nfs3Result T E)
  fh_to_id fh default_failure rest =
      on_result (fh_from_nfs context.file_handle context.file_handle_converter fh) rest
        (λ stat. pure (failed stat default_failure))

  unfoldable pub get_wcc_attr : H → Action S (Result WccAttr Nfsstat3)
  get_wcc_attr object_id = do v ← context.vfs.getattr object_id; pure (to_wcc_attr v)

  -- `nfs_option_from_result(context.vfs.getattr(…).await)`
  unfoldable pub attributes_of : H → Action S (Option Fattr3)
  attributes_of id = do attr ← context.vfs.getattr id; pure (option_from_result attr)
