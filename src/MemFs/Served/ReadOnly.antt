-- ===== src/MemFs/Served/ReadOnly.antt =====
-- The in-memory file system of crates/nfs3_server/src/memfs/mod.rs behind the read-only adapter.
use nfs.Prelude.{ℕ, ◌≡◌, refl, List}
use nfs.Nfs3.Attributes.{Nfstime3}
use nfs.Vfs.Action.{Moves}
use nfs.Vfs.FileSystem.{default_fsinfo}
use nfs.Vfs.Adapters.{read_only_adapter}
use nfs.Handlers.Context.{RpcContext}
use nfs.Handlers.Nfs.Effects.{Reads, then-Moves, end-Moves}
use nfs.MemFs.Service.{MemFs}
use nfs.MemFs.Served.{served, getattr_action}
use nfs.Server.Dispatch.{ServerState, handle_rpc_message}
use nfs.Server.Dispatch.ReadOnly.{read_only_adapter-keeps}

module _ (now : Nfstime3) (fuel : ℕ) (memfs : MemFs) (P : MemFs → Type 0) where
  fsinfo-Moves : (id : ℕ) → Moves P P (default_fsinfo (getattr_action now fuel) id)
  unfolding default_fsinfo
  fsinfo-Moves id =
      then-Moves P P (λ s h. h) _ _ (record { leads = λ s h. h }) (λ r. end-Moves P P (λ s h. h) _)

  -- The operations that read change nothing.
  pub served-Reads : Reads (served now fuel memfs) P
  served-Reads = record {
    lookup_reads = λ id name. record { leads = λ s h. h };
    getattr_reads = λ id. record { leads = λ s h. h };
    read_reads = λ id offset count. record { leads = λ s h. h };
    readdir_reads = λ id cookie. record { leads = λ s h. h };
    readdirplus_reads = λ id cookie. record { leads = λ s h. h };
    next_reads = λ i. record { leads = λ s h. h };
    next_plus_reads = λ j. record { leads = λ s h. h };
    readlink_reads = λ id. record { leads = λ s h. h };
    fsinfo_reads = fsinfo-Moves;
  }

-- A server of an in-memory file system behind the read-only adapter: whatever bytes arrive as a message,
-- the file system is the same afterwards.
pub read_only_memfs-unchanged :
    (now : Nfstime3) (fuel : ℕ) (memfs : MemFs) (context : RpcContext MemFs ℕ (List ℕ) (List ℕ))
    (at later : ℕ) (packed : List ℕ) (s : ServerState MemFs)
    → (handle_rpc_message
        (record context { vfs = read_only_adapter (served now fuel memfs) })
        at
        later
        packed
        s).1.shared.vfs
      ≡ s.shared.vfs
read_only_memfs-unchanged now fuel memfs context at later packed s =
    let kept =
      read_only_adapter-keeps (served now fuel memfs) (λ m. m ≡ s.shared.vfs)
        (served-Reads now fuel memfs _) context at later packed in
    kept.leads s refl
