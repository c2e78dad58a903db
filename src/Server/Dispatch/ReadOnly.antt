-- ===== src/Server/Dispatch/ReadOnly.antt =====
-- Requests to a server of a file system behind `ReadOnlyAdapter` of
-- crates/nfs3_server/src/vfs/adapters/mod.rs.
use nfs.Prelude.{ℕ, List, [], ◌∷◌, Result, refl}
use nfs.Nfs3.Status.{Nfsstat3}
use nfs.Vfs.Action.{Action, Moves, on_result-Moves}
use nfs.Vfs.FileSystem.{FileSystem, split, walk, default_fsinfo}
use nfs.Vfs.Adapters.{getattr, next_plus, read_only_adapter}
use nfs.Handlers.Context.{RpcContext}
use nfs.Handlers.Nfs.Effects.{Reads, then-Moves, end-Moves}
use nfs.Server.Dispatch.{handle_rpc_message}
use nfs.Server.Dispatch.Requests.{OnState, handle_rpc_message-read_only}

-- A walk along a path does what the look-ups do.
module _ {S H : Type 0} (P : S → Type 0) (lookup : H → List ℕ → Action S (Result H Nfsstat3))
    (reads : (id : H) (name : List ℕ) → Moves P P (lookup id name)) where
  pub walk-Moves : (fid : H) (components : List (List ℕ)) → Moves P P (walk lookup fid components)
  unfolding walk
  walk-Moves fid [] = end-Moves P P (λ s h. h) _
  walk-Moves fid ([] ∷ components) = walk-Moves fid components
  walk-Moves fid ((c ∷ component) ∷ components) =
      then-Moves P P (λ s h. h) _ _ (reads fid (c ∷ component))
        (λ found.
          on_result-Moves P P found _ _ (λ fid'. walk-Moves fid' components)
            (λ e. end-Moves P P (λ s h. h) _))

module _ {S H I J : Type 0} (inner : FileSystem S H I J) (P : S → Type 0)
    (reads : Reads inner P) where
  getattr-Moves : (id : H) → Moves P P (getattr inner id)
  unfolding getattr
  getattr-Moves id =
      then-Moves P P (λ s h. h) _ _ (reads.getattr_reads id) (λ r. end-Moves P P (λ s h. h) _)

  next_plus-Moves : (j : J) → Moves P P (next_plus inner j)
  unfolding next_plus
  next_plus-Moves j =
      then-Moves P P (λ s h. h) _ _ (reads.next_plus_reads j) (λ r. end-Moves P P (λ s h. h) _)

  fsinfo-Moves : (id : H) → Moves P P (default_fsinfo (getattr inner) id)
  unfolding default_fsinfo
  fsinfo-Moves id =
      then-Moves P P (λ s h. h) _ _ (getattr-Moves id) (λ r. end-Moves P P (λ s h. h) _)

  pub adapter-Reads : Reads (read_only_adapter inner) P
  adapter-Reads = record {
    lookup_reads = reads.lookup_reads;
    getattr_reads = getattr-Moves;
    read_reads = reads.read_reads;
    readdir_reads = reads.readdir_reads;
    readdirplus_reads = reads.readdirplus_reads;
    next_reads = reads.next_reads;
    next_plus_reads = next_plus-Moves;
    readlink_reads = reads.readlink_reads;
    fsinfo_reads = fsinfo-Moves;
  }

  -- Behind the read-only adapter, any bytes that arrive as a message keep what the operations of the
  -- file system that read keep, whatever its operations that write would do.
  pub read_only_adapter-keeps :
      (context : RpcContext S H I J) (now later : ℕ) (packed : List ℕ)
      → Moves
          (OnState P)
          (OnState P)
          (handle_rpc_message (record context { vfs = read_only_adapter inner }) now later packed)
  read_only_adapter-keeps context now later =
      handle_rpc_message-read_only (record context { vfs = read_only_adapter inner }) now later P
        refl (λ path. walk-Moves P inner.lookup reads.lookup_reads inner.root_dir (split path))
        adapter-Reads
