-- ===== src/MemFs/Rename/Refusal.antt =====
-- A move of a directory into itself in `rename` of crates/nfs3_server/src/memfs/mod.rs: what is
-- refused, and what is changed before.
use nfs.Prelude.{neq→==, ℕ, suc, ◌≡◌, ◌≢◌, List, [], ok, err, ==_refl}
use nfs.Nfs3.Status.{nfs3err_inval}
use nfs.MemFs.Entry.{Dir, dir}
use nfs.MemFs.Store.{Fs, status, lookup, remove}
use nfs.MemFs.Rename.{clear_target, walk_to_root, rename}

-- A directory is to be moved onto an empty directory that lies in it, by its own handle. The move is
-- refused, but the empty directory has been removed by then.
pub rename-remove :
    (fuel : ℕ) (fs fs' : Fs) (from_dirid : ℕ) (from_filename to_filename : List ℕ) (d target : Dir)
    → lookup fs from_dirid from_filename ≡ ok (dir d)
    → from_dirid ≢ d.attr.fileid
    → lookup fs d.attr.fileid to_filename ≡ ok (dir target)
    → target.content ≡ []
    → remove d.attr.fileid to_filename fs ≡ (ok tt, fs')
    → rename (suc fuel) from_dirid from_filename d.attr.fileid to_filename fs
      ≡ (err (status nfs3err_inval), fs')
unfolding rename clear_target walk_to_root
rename-remove fuel fs fs' from_dirid from_filename to_filename d target found other at_target empty
      removed =
    rw (found, rename)
      (rw (neq→== from_dirid d.attr.fileid other)
        (rw at_target (rw (empty, clear_target) (rw removed (rw (==_refl d.attr.fileid))))))
