-- ===== src/Examples/Histories.antt =====
-- The theorem about calls of crates/nfs3_server/src/memfs/mod.rs one after the other, at a file system with
-- a directory and a file in it.
use nfs.Prelude.{ℕ, ◌≡◌, refl, some, none, List, [], ◌∷◌, ok, arith}
use nfs.Nfs3.Attributes.{Nfstime3, Sattr3}
use nfs.MemFs.Service.{MemFs, empty, add_dir, add_file, default_attr}
use nfs.MemFs.Service.Stored.{IsMemFs}
use nfs.MemFs.Service.Reachable.Calls.{
  call_create, call_mkdir, call_setattr, call_write, call_remove, call_rename, after_all,
  after_all-IsMemFs,
}
use nfs.MemFs.Served.{MemFsConfigEntry, add_entries}
use nfs.MemFs.Served as Served
use nfs.MemFs.Config as Config

abbrev morning : Nfstime3
morning = record { seconds = 28800; nseconds = 0 }

abbrev log : List ℕ
log = 108 ∷ 111 ∷ 103 ∷ []

abbrev five_bytes : Sattr3
five_bytes = record default_attr { size = some 5 }

abbrev dir_name : List ℕ
dir_name = 100 ∷ []

abbrev file_name : List ℕ
file_name = 102 ∷ []

-- The directory `/d` and the file `/d/f`.
abbrev entries : List MemFsConfigEntry
entries =
    Config.add_file (47 ∷ 100 ∷ 47 ∷ 102 ∷ []) (1 ∷ 2 ∷ 3 ∷ []) (Config.add_dir (47 ∷ 100 ∷ []) [])

abbrev with_file : MemFs
with_file =
    (add_file morning 2 file_name default_attr (1 ∷ 2 ∷ 3 ∷ []) none
      (add_dir morning 1 dir_name (empty morning)).1).1

with_file-new : Served.new morning entries ≡ ok with_file
unfolding add_entries Config.add_file Config.add_dir nfs.MemFs.Service.path_to_id
    Config.trim_end_matches Config.trim_front nfs.Server.Text.strip_prefix add_dir
    nfs.MemFs.Store.push empty nfs.MemFs.Entry.new_dir nfs.MemFs.Store.lookup add_file
    nfs.MemFs.Entry.set_attr nfs.MemFs.Entry.new_file
with_file-new = refl

after_all_example : IsMemFs (
    after_all
      (call_create morning 1 log five_bytes
        ∷ call_mkdir morning 2 log
        ∷ call_setattr morning 3 five_bytes
        ∷ call_write 3 1 (7 ∷ [])
        ∷ call_rename 9 2 file_name 1 file_name
        ∷ call_remove 1 log
        ∷ [])
      with_file)
unfolding Config.add_file Config.add_dir
after_all_example =
    after_all-IsMemFs morning entries
      (call_create morning 1 log five_bytes
        ∷ call_mkdir morning 2 log
        ∷ call_setattr morning 3 five_bytes
        ∷ call_write 3 1 (7 ∷ [])
        ∷ call_rename 9 2 file_name 1 file_name
        ∷ call_remove 1 log
        ∷ [])
      with_file with_file-new refl (omega arith)
