-- ===== src/Handlers/Nfs/Write.antt =====
-- The procedures of crates/nfs3_server/src/nfs_handlers.rs that change a file or create one.
use nfs.Prelude.{
  ℕ, Bool, true, false, not, ◌&&◌, Option, some, none, List, length, ◌==◌, if◌then◌else◌, Result,
  ok, err,
}
use nfs.Nfs3.Status.{
  Nfsstat3, Nfs3Result, succeeded, failed, nfs3err_rofs, nfs3err_inval, nfs3err_exist,
  nfs3err_not_sync,
}
use nfs.Nfs3.Attributes.{Fattr3, Nfstime3}
use nfs.Nfs3.Data.{WccAttr, WccData, Createhow3, unchecked, guarded, exclusive, file_sync}
use nfs.Nfs3.Procedures.{ResultOf, nfsproc3_write, nfsproc3_create, nfsproc3_setattr}
use nfs.Vfs.Action.{Action, pure, ◌>>=◌, on_result}
use nfs.Vfs.Handle.{fh_to_nfs}
use nfs.Vfs.FileSystem.{option_from_result}
use nfs.Handlers.Context.{RpcContext, is_read_write}
use nfs.Handlers.Nfs.Common.{Procedure, no_wcc, fh_to_id, get_wcc_attr, attributes_of}

abbrev pub wcc : Option WccAttr → Option Fattr3 → WccData
wcc before after = record { before = before; after = after }

abbrev pub is_ok : {A : Type 0} → Result A Nfsstat3 → Bool
is_ok (ok a) = true
is_ok (err e) = false

abbrev pub time_eq : Nfstime3 → Nfstime3 → Bool
time_eq a b = (a.seconds == b.seconds) && (a.nseconds == b.nseconds)

-- `guard != ctime`, if there is a guard.
abbrev pub guard_fails : Option Nfstime3 → Nfstime3 → Bool
guard_fails none ctime = false
guard_fails (some guard) ctime = not (time_eq guard ctime)

abbrev pub is_guarded : Createhow3 → Bool
is_guarded (guarded a) = true
is_guarded (unchecked a) = false
is_guarded (exclusive v) = false

module _ {S H I J : Type 0} (context : RpcContext S H I J) where
  -- The test on the capabilities in front of each of these procedures.
  abbrev pub if_read_write :
      {T E : Type 0} → E → Action S (Nfs3Result T E) → Action S (Nfs3Result T E)
  if_read_write default_failure rest =
      if is_read_write context.vfs.capabilities
      then rest
      else pure (failed nfs3err_rofs default_failure)

  -- `nfsproc3_write` behind its first test.
  unfoldable pub write : Procedure S nfsproc3_write
  write args =
      if_read_write (record { file_wcc = no_wcc })
        (if not (length args.bytes == args.count)
          then pure (failed nfs3err_inval (record { file_wcc = no_wcc }))
          else fh_to_id context args.file (record { file_wcc = no_wcc })
              (λ id. do
                before ← get_wcc_attr context id
                result ← context.vfs.write id args.offset args.bytes
                on_result result
                    (λ fattr. pure (
                      succeeded (record {
                        file_wcc = wcc (option_from_result before) (some fattr);
                        count = args.count;
                        committed = file_sync;
                        verf = context.file_handle_converter.generation_number_le;
                      })))
                    (λ stat.
                      pure (
                        failed stat (record { file_wcc = wcc (option_from_result before) none })))))

  -- The `match createhow`: the handle or the status, and the attributes behind the operation.
  unfoldable pub create_by : H → List ℕ → Createhow3 → Action S (Result H Nfsstat3 × Option Fattr3)
  create_by dirid name (exclusive verf) = do
    fid ← context.vfs.create_exclusive dirid name verf
    pure (fid, none)
  create_by dirid name (unchecked target_attributes) = do
    result ← context.vfs.create dirid name target_attributes
    on_result result (λ made. pure (ok made.0, some made.1)) (λ e. pure (err e, none))
  create_by dirid name (guarded target_attributes) = do
    result ← context.vfs.create dirid name target_attributes
    on_result result (λ made. pure (ok made.0, some made.1)) (λ e. pure (err e, none))

  -- `nfsproc3_create` from the `match createhow` on.
  unfoldable pub create_new :
      H → List ℕ → Createhow3 → WccAttr → Action S (ResultOf nfsproc3_create)
  unfolding create_by
  create_new dirid name how before = do
    created ← create_by dirid name how
    after ← attributes_of context dirid
    on_result created.0
        (λ fid. pure (
          succeeded (record {
            obj = some (fh_to_nfs context.file_handle context.file_handle_converter fid);
            obj_attributes = created.1;
            dir_wcc = wcc (some before) after;
          })))
        (λ stat. pure (failed stat (record { dir_wcc = wcc (some before) after })))

  -- The answer to a guarded creation where the name is found.
  unfoldable pub create_exists : H → WccAttr → Action S (ResultOf nfsproc3_create)
  create_exists dirid before = do
    after ← attributes_of context dirid
    pure (failed nfs3err_exist (record { dir_wcc = wcc (some before) after }))

  unfoldable pub create : Procedure S nfsproc3_create
  unfolding create_new create_exists
  create args =
      if_read_write (record { dir_wcc = no_wcc })
        (fh_to_id context args.where_.dir (record { dir_wcc = no_wcc })
          (λ dirid. do
            result ← get_wcc_attr context dirid
            on_result result
                (λ before.
                  if is_guarded args.how
                  then (do
                    found ← context.vfs.lookup dirid args.where_.name
                    if is_ok found
                        then create_exists dirid before
                        else create_new dirid args.where_.name args.how before)
                  else create_new dirid args.where_.name args.how before)
                (λ stat. pure (failed stat (record { dir_wcc = no_wcc })))))

  unfoldable pub setattr : Procedure S nfsproc3_setattr
  setattr args =
      if_read_write (record { obj_wcc = no_wcc })
        (fh_to_id context args.object (record { obj_wcc = no_wcc })
          (λ id. do
            result ← get_wcc_attr context id
            on_result result
                (λ before.
                  if guard_fails args.guard before.ctime
                  then pure (failed nfs3err_not_sync (record { obj_wcc = wcc (some before) none }))
                  else (do
                    changed ← context.vfs.setattr id args.new_attributes
                    on_result changed
                        (λ attr.
                          pure (succeeded (record { obj_wcc = wcc (some before) (some attr) })))
                        (λ stat. pure (failed stat (record { obj_wcc = wcc (some before) none })))))
                (λ stat. pure (failed stat (record { obj_wcc = no_wcc })))))
