-- ===== src/Handlers/Nfs/Names.antt =====
-- The procedures of crates/nfs3_server/src/nfs_handlers.rs that make, move and take away names in
-- directories: `remove`, `rename`, `mkdir` and `symlink`.
use nfs.Prelude.{ℕ, some, List}
use nfs.Nfs3.Status.{succeeded, failed}
use nfs.Nfs3.Data.{WccAttr}
use nfs.Nfs3.Procedures.{
  ResultOf, nfsproc3_remove, nfsproc3_rename, nfsproc3_mkdir, nfsproc3_symlink,
}
use nfs.Vfs.Action.{Action, pure, ◌>>=◌, on_result}
use nfs.Vfs.Handle.{fh_to_nfs}
use nfs.Handlers.Context.{RpcContext}
use nfs.Handlers.Nfs.Common.{Procedure, no_wcc, fh_to_id, get_wcc_attr, attributes_of}
use nfs.Handlers.Nfs.Write.{wcc, if_read_write}

module _ {S H I J : Type 0} (context : RpcContext S H I J) where
  unfoldable pub remove : Procedure S nfsproc3_remove
  remove args =
      if_read_write context (record { dir_wcc = no_wcc })
        (fh_to_id context args.object.dir (record { dir_wcc = no_wcc })
          (λ dirid. do
            result ← get_wcc_attr context dirid
            on_result result
                (λ before. do
                  removed ← context.vfs.remove dirid args.object.name
                  on_result removed
                      (λ _. do
                        after ← attributes_of context dirid
                        pure (succeeded (record { dir_wcc = wcc (some before) after })))
                      (λ stat. do
                        after ← attributes_of context dirid
                        pure (failed stat (record { dir_wcc = wcc (some before) after }))))
                (λ stat. pure (failed stat (record { dir_wcc = no_wcc })))))

  -- `nfsproc3_rename` from the operation on.
  unfoldable pub rename_entries :
      H → List ℕ → H → List ℕ → WccAttr → WccAttr → Action S (ResultOf nfsproc3_rename)
  rename_entries from_dirid from_name to_dirid to_name pre_from pre_to = do
    result ← context.vfs.rename from_dirid from_name to_dirid to_name
    post_from ← attributes_of context from_dirid
    post_to ← attributes_of context to_dirid
    on_result result
        (λ _. pure (
          succeeded (record {
            fromdir_wcc = wcc (some pre_from) post_from;
            todir_wcc = wcc (some pre_to) post_to;
          })))
        (λ stat. pure (
          failed stat (record {
            fromdir_wcc = wcc (some pre_from) post_from;
            todir_wcc = wcc (some pre_to) post_to;
          })))

  unfoldable pub rename : Procedure S nfsproc3_rename
  unfolding rename_entries
  rename args =
      if_read_write context (record { fromdir_wcc = no_wcc; todir_wcc = no_wcc })
        (fh_to_id context args.from.dir (record { fromdir_wcc = no_wcc; todir_wcc = no_wcc })
          (λ from_dirid.
            fh_to_id context args.to.dir (record { fromdir_wcc = no_wcc; todir_wcc = no_wcc })
              (λ to_dirid. do
                from_result ← get_wcc_attr context from_dirid
                on_result from_result
                    (λ pre_from. do
                      to_result ← get_wcc_attr context to_dirid
                      on_result to_result
                          (λ pre_to.
                            rename_entries from_dirid args.from.name to_dirid args.to.name pre_from
                              pre_to)
                          (λ stat.
                            pure
                              (failed stat (record { fromdir_wcc = no_wcc; todir_wcc = no_wcc }))))
                    (λ stat.
                      pure (failed stat (record { fromdir_wcc = no_wcc; todir_wcc = no_wcc }))))))

  unfoldable pub mkdir : Procedure S nfsproc3_mkdir
  mkdir args =
      if_read_write context (record { dir_wcc = no_wcc })
        (fh_to_id context args.where_.dir (record { dir_wcc = no_wcc })
          (λ dirid. do
            before_result ← get_wcc_attr context dirid
            on_result before_result
                (λ before. do
                  result ← context.vfs.mkdir dirid args.where_.name
                  after ← attributes_of context dirid
                  on_result result
                      (λ made. pure (
                        succeeded (record {
                          obj =
                              some (
                                fh_to_nfs context.file_handle context.file_handle_converter made.0);
                          obj_attributes = some made.1;
                          dir_wcc = wcc (some before) after;
                        })))
                      (λ stat. pure (failed stat (record { dir_wcc = wcc (some before) after }))))
                (λ stat. pure (failed stat (record { dir_wcc = no_wcc })))))

  unfoldable pub symlink : Procedure S nfsproc3_symlink
  symlink args =
      if_read_write context (record { dir_wcc = no_wcc })
        (fh_to_id context args.where_.dir (record { dir_wcc = no_wcc })
          (λ dirid. do
            before_result ← get_wcc_attr context dirid
            on_result before_result
                (λ before. do
                  result ←
                      context.vfs.symlink dirid args.where_.name args.symlink.symlink_data
                        args.symlink.symlink_attributes
                  on_result result
                      (λ made. do
                        after ← attributes_of context dirid
                        pure (
                            succeeded (record {
                              obj = some (
                                  fh_to_nfs context.file_handle context.file_handle_converter
                                    made.0);
                              obj_attributes = some made.1;
                              dir_wcc = wcc (some before) after;
                            })))
                      (λ stat. do
                        after ← attributes_of context dirid
                        pure (failed stat (record { dir_wcc = wcc (some before) after }))))
                (λ stat. pure (failed stat (record { dir_wcc = no_wcc })))))
