-- ===== src/Server/Dispatch/Procedures.antt =====
-- What the procedures that `handle_nfs` of crates/nfs3_server/src/nfs_handlers.rs serves do to the state,
-- on a file system that may be written and on one that is read-only.
use nfs.Prelude.{ℕ, ◌≡◌}
use nfs.Nfs3.Status.{Nfs3Result}
use nfs.Nfs3.Procedures
use nfs.Nfs3.Procedures.{NfsProgram}
use nfs.Vfs.Action.{Action, Moves, pure-Moves}
use nfs.Vfs.FileSystem.{read_only}
use nfs.Handlers.Context.{RpcContext}
use nfs.Handlers.Nfs.Effects.{Reads, Writes}
use nfs.Handlers.Nfs.Effects.Reading
use nfs.Handlers.Nfs.Effects.Writing
use nfs.Handlers.Nfs.Write.{if_read_write, write, create, setattr}
use nfs.Handlers.Nfs.Names.{remove, rename, mkdir, symlink}
use nfs.Server.Programs.{handler_of}
use nfs.Server.Dispatch.Effects.{Leads}

module _ {S H I J : Type 0} (context : RpcContext S H I J) (P Q : S → Type 0) where
  -- The procedures that write lead from `P` to `Q`.
  record WritesLead : Type 0 where
    pub setattr_leads : (args : _) → Moves P Q (setattr context args)
    pub write_leads : (args : _) → Moves P Q (write context args)
    pub create_leads : (args : _) → Moves P Q (create context args)
    pub mkdir_leads : (args : _) → Moves P Q (mkdir context args)
    pub symlink_leads : (args : _) → Moves P Q (symlink context args)
    pub remove_leads : (args : _) → Moves P Q (remove context args)
    pub rename_leads : (args : _) → Moves P Q (rename context args)

  module _ (weaker : (s : S) → P s → Q s) (reads : Reads context.vfs P) (writes : WritesLead) where
    weakened : {A : Type 0} (m : Action S A) → Moves P P m → Moves P Q m
    weakened m h = record { leads = λ s p. weaker _ (h.leads s p) }

    served-Leads : (xid : ℕ) (p : NfsProgram) → Leads context P Q (handler_of context xid p)
    served-Leads xid Procedures.nfsproc3_null =
        λ args. weakened _ (Reading.null-Moves context P reads args)
    served-Leads xid Procedures.nfsproc3_getattr =
        λ args. weakened _ (Reading.getattr-Moves context P reads args)
    served-Leads xid Procedures.nfsproc3_setattr = writes.setattr_leads
    served-Leads xid Procedures.nfsproc3_lookup =
        λ args. weakened _ (Reading.lookup-Moves context P reads args)
    served-Leads xid Procedures.nfsproc3_access =
        λ args. weakened _ (Reading.access-Moves context P reads args)
    served-Leads xid Procedures.nfsproc3_readlink =
        λ args. weakened _ (Reading.readlink-Moves context P reads args)
    served-Leads xid Procedures.nfsproc3_read =
        λ args. weakened _ (Reading.read-Moves context P reads args)
    served-Leads xid Procedures.nfsproc3_write = writes.write_leads
    served-Leads xid Procedures.nfsproc3_create = writes.create_leads
    served-Leads xid Procedures.nfsproc3_mkdir = writes.mkdir_leads
    served-Leads xid Procedures.nfsproc3_symlink = writes.symlink_leads
    served-Leads xid Procedures.nfsproc3_mknod = tt
    served-Leads xid Procedures.nfsproc3_remove = writes.remove_leads
    served-Leads xid Procedures.nfsproc3_rmdir = writes.remove_leads
    served-Leads xid Procedures.nfsproc3_rename = writes.rename_leads
    served-Leads xid Procedures.nfsproc3_link = tt
    served-Leads xid Procedures.nfsproc3_readdir =
        λ args. weakened _ (Reading.readdir-Moves context P reads xid args)
    served-Leads xid Procedures.nfsproc3_readdirplus =
        λ args. weakened _ (Reading.readdirplus-Moves context P reads args)
    served-Leads xid Procedures.nfsproc3_fsstat =
        λ args. weakened _ (Reading.fsstat-Moves context P reads args)
    served-Leads xid Procedures.nfsproc3_fsinfo =
        λ args. weakened _ (Reading.fsinfo-Moves context P reads args)
    served-Leads xid Procedures.nfsproc3_pathconf =
        λ args. weakened _ (Reading.pathconf-Moves context P reads args)
    served-Leads xid Procedures.nfsproc3_commit = tt

  module _ (weaker : (s : S) → P s → Q s) (reads : Reads context.vfs P)
      (reads_after : Reads context.vfs Q) (writes : Writes context.vfs P Q) where
    pub read_write-Leads : (xid : ℕ) (p : NfsProgram) → Leads context P Q (handler_of context xid p)
    read_write-Leads = served-Leads weaker reads (record {
      setattr_leads = Writing.setattr-Moves context P Q weaker reads reads_after writes;
      write_leads = Writing.write-Moves context P Q weaker reads reads_after writes;
      create_leads = Writing.create-Moves context P Q weaker reads reads_after writes;
      mkdir_leads = Writing.mkdir-Moves context P Q weaker reads reads_after writes;
      symlink_leads = Writing.symlink-Moves context P Q weaker reads reads_after writes;
      remove_leads = Writing.remove-Moves context P Q weaker reads reads_after writes;
      rename_leads = Writing.rename-Moves context P Q weaker reads reads_after writes;
    })

module _ {S H I J : Type 0} (context : RpcContext S H I J) (P : S → Type 0)
    (reads : Reads context.vfs P) (only : context.vfs.capabilities ≡ read_only) where
  refused-Moves :
      {T E : Type 0} (failure : E) (rest : Action S (Nfs3Result T E))
      → Moves P P (if_read_write context failure rest)
  refused-Moves failure rest = rw only (pure-Moves P P _ (λ s h. h))

  setattr-refused : (args : _) → Moves P P (setattr context args)
  unfolding setattr
  setattr-refused args = refused-Moves _ _

  write-refused : (args : _) → Moves P P (write context args)
  unfolding write
  write-refused args = refused-Moves _ _

  create-refused : (args : _) → Moves P P (create context args)
  unfolding create
  create-refused args = refused-Moves _ _

  mkdir-refused : (args : _) → Moves P P (mkdir context args)
  unfolding mkdir
  mkdir-refused args = refused-Moves _ _

  symlink-refused : (args : _) → Moves P P (symlink context args)
  unfolding symlink
  symlink-refused args = refused-Moves _ _

  remove-refused : (args : _) → Moves P P (remove context args)
  unfolding remove
  remove-refused args = refused-Moves _ _

  rename-refused : (args : _) → Moves P P (rename context args)
  unfolding rename
  rename-refused args = refused-Moves _ _

  -- On a read-only file system the procedures that write are refused.
  pub read_only-Leads : (xid : ℕ) (p : NfsProgram) → Leads context P P (handler_of context xid p)
  read_only-Leads =
      served-Leads context P P (λ s h. h) reads
        (record {
          setattr_leads = setattr-refused;
          write_leads = write-refused;
          create_leads = create-refused;
          mkdir_leads = mkdir-refused;
          symlink_leads = symlink-refused;
          remove_leads = remove-refused;
          rename_leads = rename-refused;
        })
