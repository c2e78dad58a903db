-- ===== src/Handlers/Nfs/Effects/Writing.antt =====
-- The procedures of crates/nfs3_server/src/nfs_handlers.rs that write, and the state behind them: each
-- calls one of the operations that write at most.
use nfs.Prelude.{ℕ, not, length, ◌==◌, List}
use nfs.Nfs3.Data.{WccAttr, Createhow3, unchecked, guarded, exclusive}
use nfs.Nfs3.Procedures.{
  Arguments, nfsproc3_write, nfsproc3_create, nfsproc3_setattr, nfsproc3_remove, nfsproc3_rename,
  nfsproc3_mkdir, nfsproc3_symlink,
}
use nfs.Vfs.Action.{Action, Moves, on_result-Moves, if-Moves, pure, ◌>>=◌}
use nfs.Handlers.Context.{RpcContext, is_read_write}
use nfs.Handlers.Nfs.Common.{attributes_of, get_wcc_attr}
use nfs.Handlers.Nfs.Write.{
  write, create, create_by, create_new, create_exists, setattr, is_guarded, guard_fails, is_ok,
}
use nfs.Handlers.Nfs.Names.{remove, rename, rename_entries, mkdir, symlink}
use nfs.Handlers.Nfs.Effects.{
  Reads, Writes, then-Moves, write_then-Moves, end-Moves, attributes_of-Moves, get_wcc_attr-Moves,
}

module _ {S H I J : Type 0} (context : RpcContext S H I J) (P Q : S → Type 0)
    (weaker : (s : S) → P s → Q s) (reads : Reads context.vfs P) (reads_after : Reads context.vfs Q)
    (writes : Writes context.vfs P Q) where
  -- A part before the operation that writes, that operation, and a part behind it.
  before :
      {A B : Type 0} (m : Action S A) (f : A → Action S B)
      → Moves P P m
      → ((a : A) → Moves P Q (f a))
      → Moves P Q (m >>= f)
  before = then-Moves P Q weaker

  change :
      {A B : Type 0} (m : Action S A) (f : A → Action S B)
      → Moves P Q m
      → ((a : A) → Moves Q Q (f a))
      → Moves P Q (m >>= f)
  change = write_then-Moves P Q weaker

  behind :
      {A B : Type 0} (m : Action S A) (f : A → Action S B)
      → Moves Q Q m
      → ((a : A) → Moves Q Q (f a))
      → Moves Q Q (m >>= f)
  behind = then-Moves Q Q (λ s h. h)

  early : {A : Type 0} (a : A) → Moves P Q (pure {S = S} a)
  early = end-Moves P Q weaker

  done : {A : Type 0} (a : A) → Moves Q Q (pure {S = S} a)
  done = end-Moves Q Q (λ s h. h)

  wcc_before : (id : H) → Moves P P (get_wcc_attr context id)
  wcc_before = get_wcc_attr-Moves context P reads

  attributes_after : (id : H) → Moves Q Q (attributes_of context id)
  attributes_after = attributes_of-Moves context Q reads_after

  pub write-Moves : (args : Arguments nfsproc3_write) → Moves P Q (write context args)
  unfolding write
  write-Moves args =
      if-Moves P Q (is_read_write context.vfs.capabilities) _ _
        (if-Moves P Q (not (length args.bytes == args.count)) _ _ (early _) (
          on_result-Moves P Q _ _ _
            (λ id. before _ _ (wcc_before id) (λ old.
              change _ _ (writes.write_writes id args.offset args.bytes)
                (λ result. on_result-Moves Q Q result _ _ (λ a. done _) (λ e. done _))))
            (λ e. early _)))
        (early _)

  create_by-Moves :
      (id : H) (name : List ℕ) (how : Createhow3) → Moves P Q (create_by context id name how)
  unfolding create_by
  create_by-Moves id name (exclusive verf) =
      change _ _ (writes.create_exclusive_writes id name verf) (λ r. done _)
  create_by-Moves id name (unchecked attr) =
      change _ _ (writes.create_writes id name attr)
        (λ r. on_result-Moves Q Q r _ _ (λ a. done _) (λ e. done _))
  create_by-Moves id name (guarded attr) =
      change _ _ (writes.create_writes id name attr)
        (λ r. on_result-Moves Q Q r _ _ (λ a. done _) (λ e. done _))

  create_new-Moves :
      (id : H) (name : List ℕ) (how : Createhow3) (old : WccAttr)
      → Moves P Q (create_new context id name how old)
  unfolding create_new
  create_new-Moves id name how old = change _ _ (create_by-Moves id name how) (λ r.
      behind _ _ (attributes_after id)
        (λ attr. on_result-Moves Q Q r.0 _ _ (λ a. done _) (λ e. done _)))

  create_exists-Moves : (id : H) (old : WccAttr) → Moves P Q (create_exists context id old)
  unfolding create_exists
  create_exists-Moves id old = before _ _ (attributes_of-Moves context P reads id) (λ attr. early _)

  pub create-Moves : (args : Arguments nfsproc3_create) → Moves P Q (create context args)
  unfolding create
  create-Moves args =
      if-Moves P Q (is_read_write context.vfs.capabilities) _ _
        (on_result-Moves P Q _ _ _
          (λ id. before _ _ (wcc_before id) (λ result.
            on_result-Moves P Q result _ _
              (λ old.
                if-Moves P Q (is_guarded args.how) _ _
                  (before _ _ (reads.lookup_reads id args.where_.name) (λ found.
                    if-Moves P Q (is_ok found) _ _ (create_exists-Moves id old)
                      (create_new-Moves id args.where_.name args.how old)))
                  (create_new-Moves id args.where_.name args.how old))
              (λ e. early _)))
          (λ e. early _))
        (early _)

  pub setattr-Moves : (args : Arguments nfsproc3_setattr) → Moves P Q (setattr context args)
  unfolding setattr
  setattr-Moves args =
      if-Moves P Q (is_read_write context.vfs.capabilities) _ _
        (on_result-Moves P Q _ _ _
          (λ id. before _ _ (wcc_before id) (λ result.
            on_result-Moves P Q result _ _
              (λ old. if-Moves P Q (guard_fails args.guard old.ctime) _ _ (early _) (
                change _ _ (writes.setattr_writes id args.new_attributes)
                  (λ r. on_result-Moves Q Q r _ _ (λ a. done _) (λ e. done _))))
              (λ e. early _)))
          (λ e. early _))
        (early _)

  pub remove-Moves : (args : Arguments nfsproc3_remove) → Moves P Q (remove context args)
  unfolding remove
  remove-Moves args =
      if-Moves P Q (is_read_write context.vfs.capabilities) _ _
        (on_result-Moves P Q _ _ _
          (λ id. before _ _ (wcc_before id) (λ result.
            on_result-Moves P Q result _ _
              (λ old. change _ _ (writes.remove_writes id args.object.name) (λ r.
                on_result-Moves Q Q r _ _ (λ a. behind _ _ (attributes_after id) (λ attr. done _))
                  (λ e. behind _ _ (attributes_after id) (λ attr. done _))))
              (λ e. early _)))
          (λ e. early _))
        (early _)

  rename_entries-Moves :
      (from : H) (from_name : List ℕ) (to : H) (to_name : List ℕ) (old_from old_to : WccAttr)
      → Moves P Q (rename_entries context from from_name to to_name old_from old_to)
  unfolding rename_entries
  rename_entries-Moves from from_name to to_name old_from old_to =
      change _ _ (writes.rename_writes from from_name to to_name) (λ r.
        behind _ _ (attributes_after from) (λ attr.
          behind _ _ (attributes_after to)
            (λ attr'. on_result-Moves Q Q r _ _ (λ a. done _) (λ e. done _))))

  pub rename-Moves : (args : Arguments nfsproc3_rename) → Moves P Q (rename context args)
  unfolding rename
  rename-Moves args =
      if-Moves P Q (is_read_write context.vfs.capabilities) _ _
        (on_result-Moves P Q _ _ _
          (λ from.
            on_result-Moves P Q _ _ _
              (λ to. before _ _ (wcc_before from) (λ result.
                on_result-Moves P Q result _ _
                  (λ old_from. before _ _ (wcc_before to) (λ result'.
                    on_result-Moves P Q result' _ _
                      (λ old_to.
                        rename_entries-Moves from args.from.name to args.to.name old_from old_to)
                      (λ e. early _)))
                  (λ e. early _)))
              (λ e. early _))
          (λ e. early _))
        (early _)

  pub mkdir-Moves : (args : Arguments nfsproc3_mkdir) → Moves P Q (mkdir context args)
  unfolding mkdir
  mkdir-Moves args =
      if-Moves P Q (is_read_write context.vfs.capabilities) _ _
        (on_result-Moves P Q _ _ _
          (λ id. before _ _ (wcc_before id) (λ result.
            on_result-Moves P Q result _ _
              (λ old. change _ _ (writes.mkdir_writes id args.where_.name) (λ r.
                behind _ _ (attributes_after id)
                  (λ attr. on_result-Moves Q Q r _ _ (λ a. done _) (λ e. done _))))
              (λ e. early _)))
          (λ e. early _))
        (early _)

  pub symlink-Moves : (args : Arguments nfsproc3_symlink) → Moves P Q (symlink context args)
  unfolding symlink
  symlink-Moves args =
      if-Moves P Q (is_read_write context.vfs.capabilities) _ _
        (on_result-Moves P Q _ _ _
          (λ id. before _ _ (wcc_before id) (λ result.
            on_result-Moves P Q result _ _
              (λ old.
                change _ _
                  (writes.symlink_writes id args.where_.name args.symlink.symlink_data
                    args.symlink.symlink_attributes)
                  (λ r.
                    on_result-Moves Q Q r _ _
                      (λ a. behind _ _ (attributes_after id) (λ attr. done _))
                      (λ e. behind _ _ (attributes_after id) (λ attr. done _))))
              (λ e. early _)))
          (λ e. early _))
        (early _)
