-- ===== src/Examples/Server.antt =====
-- A server of crates/nfs3_server/src on a small in-memory file system, which has one directory in its root.
use nfs.Prelude.{ℕ, true, List, [], ◌∷◌}
use nfs.Nfs3.Attributes.{Nfstime3}
use nfs.MemFs.Service.{MemFs, empty, mkdir}
use nfs.MemFs.Served.{served}
use nfs.Vfs.Handle.{file_handle_u64, converter, fh_to_nfs}
use nfs.Handlers.Context.{RpcContext}

abbrev pub midnight : Nfstime3
midnight = record { seconds = 0; nseconds = 0 }

abbrev pub name : List ℕ
name = 97 ∷ []

abbrev pub memfs : MemFs
memfs = (mkdir (empty midnight) midnight 1 name).1

abbrev pub Context : Type 0
Context = RpcContext MemFs ℕ (List ℕ) (List ℕ)

abbrev pub context : Context
context = record {
  local_port = 11111;
  client_addr = "10.0.0.1:700";
  auth = record { stamp = 0; machinename = []; uid = 0; gid = 0; gids = [] };
  vfs = served midnight 9 memfs;
  has_mount_signal = true;
  export_name = 47 ∷ [];
  file_handle = file_handle_u64;
  file_handle_converter = converter 1700000000000;
}

abbrev pub root_handle : List ℕ
root_handle = fh_to_nfs file_handle_u64 (converter 1700000000000) 1
