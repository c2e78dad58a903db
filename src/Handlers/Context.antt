-- ===== src/Handlers/Context.antt =====
-- `RPCContext` of crates/nfs3_server/src/context.rs, with the interface of the handles of its file
-- system. The tracker and the channel of mount signals are parts of the state of the server.
use Prim.Native.String.{String}
use nfs.Prelude.{ℕ, List, Bool, true, false}
use nfs.Rpc.Auth.{AuthUnix}
use nfs.Vfs.Handle.{FileHandle, FileHandleConverter}
use nfs.Vfs.FileSystem.{FileSystem, VfsCapabilities, read_only, read_write}

pub record RpcContext (S H I J : Type 0) : Type 0 where
  pub local_port : ℕ
  pub client_addr : String
  pub auth : AuthUnix
  pub vfs : FileSystem S H I J
  pub has_mount_signal : Bool
  pub export_name : List ℕ
  pub file_handle : FileHandle H
  pub file_handle_converter : FileHandleConverter

-- `matches!(capabilities, VFSCapabilities::ReadWrite)`
abbrev pub is_read_write : VfsCapabilities → Bool
is_read_write read_write = true
is_read_write read_only = false
