-- ===== src/Handlers/Nfs/Read.antt =====
-- The procedures of crates/nfs3_server/src/nfs_handlers.rs that read, directory listings apart.
use nfs.Prelude.{◌*◌, ◌-◌, ◌^◌, ◌%◌, true, false, none, length, ltb, if◌then◌else◌}
use nfs.Nfs3.Status.{succeeded, failed}
use nfs.Nfs3.Procedures.{
  nfsproc3_null, nfsproc3_getattr, nfsproc3_lookup, nfsproc3_read, nfsproc3_fsinfo, nfsproc3_access,
  nfsproc3_pathconf, nfsproc3_fsstat, nfsproc3_readlink,
}
use nfs.Vfs.Action.{pure, panic, ◌>>=◌, on_result}
use nfs.Vfs.Handle.{fh_to_nfs}
use nfs.Vfs.FileSystem.{gibibyte}
use nfs.Handlers.Context.{RpcContext, is_read_write}
use nfs.Handlers.Nfs.Common.{Procedure, fh_to_id, attributes_of}

module _ {S H I J : Type 0} (context : RpcContext S H I J) where
  unfoldable pub null : Procedure S nfsproc3_null
  null _ = pure tt

  unfoldable pub getattr : Procedure S nfsproc3_getattr
  getattr args = fh_to_id context args.object tt (λ id. do
    attr ← context.vfs.getattr id
    on_result attr (λ obj_attributes. pure (succeeded (record { obj_attributes = obj_attributes })))
        (λ stat. pure (failed stat tt)))

  unfoldable pub lookup : Procedure S nfsproc3_lookup
  lookup args =
      fh_to_id context args.what.dir (record { dir_attributes = none })
        (λ dirid. do
          dir_attributes ← attributes_of context dirid
          found ← context.vfs.lookup dirid args.what.name
          on_result found
              (λ fid. do
                obj_attributes ← attributes_of context fid
                pure (
                    succeeded (record {
                      object = fh_to_nfs context.file_handle context.file_handle_converter fid;
                      obj_attributes = obj_attributes;
                      dir_attributes = dir_attributes;
                    })))
              (λ stat. pure (failed stat (record { dir_attributes = dir_attributes }))))

  -- The panic is that of `u32::try_from(bytes.len())`.
  unfoldable pub read : Procedure S nfsproc3_read
  read args =
      fh_to_id context args.file (record { file_attributes = none })
        (λ id. do
          file_attributes ← attributes_of context id
          result ← context.vfs.read id args.offset args.count
          on_result result
              (λ found.
                if ltb (length found.0) (2 ^ 32)
                then pure (
                    succeeded (record {
                      file_attributes = file_attributes;
                      count = length found.0;
                      eof = found.1;
                      bytes = found.0;
                    }))
                else panic)
              (λ stat. pure (failed stat (record { file_attributes = file_attributes }))))

  unfoldable pub fsinfo : Procedure S nfsproc3_fsinfo
  fsinfo args =
      fh_to_id context args.fsroot (record { obj_attributes = none })
        (λ id. do
          result ← context.vfs.fsinfo id
          on_result result (λ info. pure (succeeded info))
              (λ stat. pure (failed stat (record { obj_attributes = none }))))

  -- `ACCESS3_READ | ACCESS3_LOOKUP` are the two lowest bits.
  unfoldable pub access : Procedure S nfsproc3_access
  access args =
      fh_to_id context args.object (record { obj_attributes = none })
        (λ id. do
          obj_attributes ← attributes_of context id
          pure (
              succeeded (record {
                obj_attributes = obj_attributes;
                access =
                    if is_read_write context.vfs.capabilities then args.access else args.access % 4;
              })))

  unfoldable pub pathconf : Procedure S nfsproc3_pathconf
  pathconf args =
      fh_to_id context args.object (record { obj_attributes = none })
        (λ id. do
          obj_attr ← attributes_of context id
          pure (
              succeeded (record {
                obj_attributes = obj_attr;
                linkmax = 0;
                name_max = 32768;
                no_trunc = true;
                chown_restricted = true;
                case_insensitive = false;
                case_preserving = true;
              })))

  unfoldable pub fsstat : Procedure S nfsproc3_fsstat
  fsstat args =
      fh_to_id context args.fsroot (record { obj_attributes = none })
        (λ id. do
          obj_attr ← attributes_of context id
          pure (
              succeeded (record {
                obj_attributes = obj_attr;
                tbytes = 1024 * gibibyte;
                fbytes = 1024 * gibibyte;
                abytes = 1024 * gibibyte;
                tfiles = gibibyte;
                ffiles = gibibyte;
                afiles = gibibyte;
                invarsec = 2 ^ 32 - 1;
              })))

  unfoldable pub readlink : Procedure S nfsproc3_readlink
  readlink args =
      fh_to_id context args.symlink (record { symlink_attributes = none })
        (λ id. do
          symlink_attributes ← attributes_of context id
          result ← context.vfs.readlink id
          on_result result
              (λ target.
                pure
                  (succeeded (record { symlink_attributes = symlink_attributes; bytes = target })))
              (λ stat. pure (failed stat (record { symlink_attributes = symlink_attributes }))))
