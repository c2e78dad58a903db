-- ===== src/Examples/Renames.antt =====
-- The theorems about the renames of crates/nfs3_server/src/memfs/mod.rs, at a small file system.
use nfs.Prelude.{ℕ, ◌≡◌, refl, List, [], ◌∷◌, ok, err, arith}
use nfs.Nfs3.Status.{nfs3err_noent}
use nfs.Nfs3.Attributes.{Nfstime3}
use nfs.MemFs.Entry.{Dir, new_dir}
use nfs.MemFs.Store.{Fs, lookup, dot}
use nfs.MemFs.WellFormed.{IsDirAt, Member}
use nfs.MemFs.Service.{MemFs, empty, rename_entry}
use nfs.MemFs.Service.Stored.{IsMemFs}
use nfs.MemFs.Served.{new, add_entries}
use nfs.MemFs.Service.Reachable.Calls.{call_mkdir, after_all, after_all-IsMemFs}
use nfs.MemFs.Rename.{walk_to_root, rename}
use nfs.MemFs.Rename.Dot.{rename-dot}
use nfs.MemFs.Rename.Handles.{rename_entry-IsMemFs}

abbrev dawn : Nfstime3
dawn = record { seconds = 21600; nseconds = 0 }

abbrev one : List ℕ
one = 49 ∷ []

abbrev two : List ℕ
two = 50 ∷ []

-- The directories 2 and 3 in the root.
abbrev two_dirs : MemFs
two_dirs = after_all (call_mkdir dawn 1 one ∷ call_mkdir dawn 1 two ∷ []) (empty dawn)

just_root : new dawn [] ≡ ok (empty dawn)
unfolding add_entries
just_root = refl

two_dirs-IsMemFs : IsMemFs two_dirs
two_dirs-IsMemFs =
    after_all-IsMemFs dawn [] (call_mkdir dawn 1 one ∷ call_mkdir dawn 1 two ∷ []) (empty dawn)
      just_root refl (omega arith)

rename_entry_example : IsMemFs (rename_entry two_dirs 9 1 one 3 two).1
rename_entry_example = rename_entry-IsMemFs 9 two_dirs 1 one 3 two two_dirs-IsMemFs refl refl

abbrev root_of : Dir
root_of = record (new_dir dawn (47 ∷ []) 1 0) { content = 2 ∷ 3 ∷ [] }

at_one : IsDirAt two_dirs.fs 2 (new_dir dawn one 2 1)
unfolding empty nfs.MemFs.Service.mkdir nfs.MemFs.Service.add_dir nfs.MemFs.Store.push new_dir
at_one = refl

at_two : IsDirAt two_dirs.fs 3 (new_dir dawn two 3 1)
unfolding empty nfs.MemFs.Service.mkdir nfs.MemFs.Service.add_dir nfs.MemFs.Store.push new_dir
at_two = refl

at_root : IsDirAt two_dirs.fs 1 root_of
unfolding empty nfs.MemFs.Service.mkdir nfs.MemFs.Service.add_dir nfs.MemFs.Store.push
    nfs.MemFs.Store.push_to nfs.MemFs.Store.new new_dir
at_root = refl

nothing_there : lookup two_dirs.fs 3 one ≡ err nfs3err_noent
unfolding lookup nfs.MemFs.Service.mkdir nfs.MemFs.Service.add_dir nfs.MemFs.Store.push empty
    new_dir
nothing_there = refl

walked_to_root : walk_to_root 9 two_dirs.fs 2 3 ≡ ok tt
unfolding walk_to_root nfs.MemFs.Service.mkdir nfs.MemFs.Service.add_dir nfs.MemFs.Store.push empty
    new_dir
walked_to_root = refl

rename_dot_example :
    (fs' : Fs) × (rename 9 2 dot 3 one two_dirs.fs ≡ (ok tt, fs')) × Member fs' 1 2 × Member fs' 3 2
rename_dot_example =
    rename-dot two_dirs.fs 2 3 1 (new_dir dawn one 2 1) (new_dir dawn two 3 1)
      two_dirs-IsMemFs.well_formed at_one (root_of, at_root, refl) at_two (λ e. ground arith)
      (λ e. ground arith) (λ e. ground arith) 9 one nothing_there walked_to_root
