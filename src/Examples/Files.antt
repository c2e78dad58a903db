-- ===== src/Examples/Files.antt =====
-- The theorems about crates/nfs3_server/src/memfs/mod.rs and crates/nfs3_server/src/vfs/handle.rs
-- at a small file system and a handle.
use Prim.Native.Nat.{compare}
use nfs.Vfs.Handle.{file_handle_u64, converter, fh_to_nfs, fh_from_nfs}
use nfs.Vfs.Handle.Generations.{answer, file_handle_u64-LawfulHandle, fh_from_nfs-verdict}
use nfs.MemFs.Rename.{rename}
use nfs.MemFs.Rename.Refusal.{rename-remove}
use nfs.MemFs.WellFormed.Push.{IsEmpty, with_child, linked}
use nfs.Prelude.{
  some-injective, ◌<◌, ◌%◌, ℕ, ◌+◌, ◌-◌, ◌^◌, ◌≡◌, ◌≢◌, refl, some, none, List, [], ◌∷◌, ok, err,
  length, take, drop, leb, arith,
}
use nfs.Nfs3.Status.{nfs3err_noent, nfs3err_inval}
use nfs.Nfs3.Attributes.{Sattr3, Nfstime3, Fattr3}
use nfs.MemFs.Entry.{Dir, new_dir, File, new_file, read, write, Entry, file, dir, name_of, fileid}
use nfs.MemFs.Store.{Fs, panicked, status, new, push, remove, lookup}
use nfs.MemFs.Sets.{In}
use nfs.MemFs.FileData.{IsFile, read-slice, write-read, read-overflow}
use nfs.MemFs.WellFormed.{IsDirAt, IsWellFormed}
use nfs.MemFs.WellFormed.Push.{push-IsWellFormed}
use nfs.MemFs.WellFormed.Remove.{remove-IsWellFormed}
use nfs.MemFs.Rename.Walk.{at_root, Decides, walk_to_root-Decides}
use nfs.MemFs.Service.{MemFs, empty, next, create, mkdir, lookup_id, getattr, default_attr}
use nfs.MemFs.Service.Stored.{IsMemFs, empty-IsMemFs, stored, stored-IsMemFs}
use nfs.MemFs.Service.Panics.{IsHuge, create-panicked}
use nfs.MemFs.Service.Create.{SizeFits, create-lookup, mkdir-duplicate}

abbrev noon : Nfstime3
noon = record { seconds = 43200; nseconds = 0 }

abbrev note : List ℕ
note = 110 ∷ 111 ∷ 116 ∷ 101 ∷ []

abbrev three_bytes : File
three_bytes = new_file noon note 2 (10 ∷ 20 ∷ 30 ∷ []) []

three_bytes-IsFile : IsFile three_bytes
unfolding new_file
three_bytes-IsFile = record { size = refl; used = refl }

three_bytes-length : length three_bytes.content ≡ 3
unfolding new_file
three_bytes-length = refl

read_slice_example :
    read three_bytes 1 8
    ≡ some (take 8 (drop 1 three_bytes.content), leb (length three_bytes.content) (1 + 8))
read_slice_example = read-slice three_bytes 1 8 (omega arith)

write-read_example :
    (attr : Fattr3) × (f : File) × (write three_bytes 2 (7 ∷ 8 ∷ []) ≡ some (ok (attr, f)))
    × IsFile f
    × (attr ≡ f.attr)
    × (read f 2 2 ≡ some (7 ∷ 8 ∷ [], leb (length f.content) (2 + 2)))
write-read_example =
    write-read three_bytes 2 (7 ∷ 8 ∷ []) three_bytes-IsFile (omega (arith, three_bytes-length))
      (omega arith)

read_overflow_example : read three_bytes (2 ^ 64 - 1) 2 ≡ none
read_overflow_example =
    read-overflow three_bytes (2 ^ 64 - 1) 2 (omega arith) (omega arith)
      (omega (arith, three_bytes-length)) (omega arith) (omega (arith, three_bytes-length))

-- The root directory, alone and with a directory in it.
abbrev root : Dir
root = new_dir noon (47 ∷ []) 1 0

abbrev inner : Entry
inner = dir (new_dir noon note 2 1)

root-at : IsDirAt (empty noon).fs 1 root
unfolding empty new
root-at = refl

inner-id : (new_dir noon note 2 1).attr.fileid ≡ (empty noon).nextid
unfolding new_dir empty new
inner-id = refl

inner-empty : (new_dir noon note 2 1).content ≡ []
unfolding new_dir
inner-empty = refl

abbrev with_inner : MemFs
with_inner = stored (empty noon) (empty-IsMemFs noon) 1 root root-at inner inner-id inner-empty

next_id : (empty noon).nextid ≡ 2
unfolding empty new
next_id = refl

with_inner-IsMemFs : IsMemFs with_inner
with_inner-IsMemFs =
    stored-IsMemFs (empty noon) (empty-IsMemFs noon) 1 root root-at inner inner-id inner-empty
      (omega (arith, next_id))

push_example :
    IsWellFormed (push 1 inner (empty noon).fs).1
    × ((push 1 inner (empty noon).fs).0 ≢ err panicked)
push_example =
    push-IsWellFormed (empty noon).fs 1 inner (empty-IsMemFs noon).well_formed inner-empty

remove_example :
    IsWellFormed (remove 1 note with_inner.fs).1 × ((remove 1 note with_inner.fs).0 ≢ err panicked)
remove_example = remove-IsWellFormed with_inner.fs 1 note with_inner-IsMemFs.well_formed

root_is_root : 1 ≡ (empty noon).fs.root
unfolding empty new
root_is_root = refl

walk_example : Decides 1 (empty noon).fs 2 1
walk_example =
    walk_to_root-Decides 1 (empty noon).fs 2 1 0 (at_root 1 root root-at root_is_root) (omega arith)

note-missing : lookup (empty noon).fs 1 note ≡ err nfs3err_noent
unfolding empty new lookup new_dir
note-missing = refl

abbrev five_zeros : Sattr3
five_zeros = record default_attr { size = some 5 }

five_zeros-SizeFits : SizeFits five_zeros
five_zeros-SizeFits size h = omega (arith, some-injective refl h)

create_example :
    (attr : Fattr3) × (m : MemFs) × (create (empty noon) noon 1 note five_zeros
      ≡ (ok ((empty noon).nextid, attr), m))
    × (lookup_id m 1 note ≡ ok (empty noon).nextid)
    × (getattr m (empty noon).nextid ≡ ok attr)
    × IsMemFs m
create_example =
    create-lookup (empty noon) (empty-IsMemFs noon) (omega (arith, next_id)) noon 1 root root-at
      note five_zeros five_zeros-SizeFits note-missing

abbrev huge_size : Sattr3
huge_size = record default_attr { size = some (2 ^ 63) }

create_panics_example :
    (IsHuge huge_size.size
      → create (empty noon) noon 1 note huge_size ≡ (err panicked, next (empty noon)))
    × ((create (empty noon) noon 1 note huge_size).0 ≡ err panicked → IsHuge huge_size.size)
create_panics_example = create-panicked (empty noon) (empty-IsMemFs noon) noon 1 note huge_size

-- The root directory once it has an entry.
abbrev full_root : Dir
full_root = record root { content = 2 ∷ [] }

full_root-at : IsDirAt with_inner.fs 1 full_root
unfolding empty new new_dir
full_root-at = refl

inner-at : with_inner.fs.entries 2 ≡ some inner
unfolding empty new new_dir
inner-at = refl

with_inner-next : with_inner.nextid ≡ 3
unfolding empty new
with_inner-next = refl

mkdir_example :
    (attr : Fattr3) × (m : MemFs) × (d : Dir) × (e : Entry) × (e' : Entry) × (mkdir with_inner noon
        1
        (name_of inner)
      ≡ (ok (with_inner.nextid, attr), m))
    × IsMemFs m
    × IsDirAt m.fs 1 d
    × In 2 d.content
    × In with_inner.nextid d.content
    × (2 ≢ with_inner.nextid)
    × (m.fs.entries 2 ≡ some e)
    × (m.fs.entries with_inner.nextid ≡ some e')
    × (name_of e ≡ name_of e')
mkdir_example =
    mkdir-duplicate with_inner with_inner-IsMemFs (omega (arith, with_inner-next)) noon 1 full_root
      full_root-at 2 inner refl inner-at

-- A file beside it.
abbrev log : List ℕ
log = 108 ∷ 111 ∷ 103 ∷ []

abbrev note_file : Entry
note_file = file (new_file noon log 3 [] [])

note_file-id : fileid note_file ≡ with_inner.nextid
unfolding new_file empty new
note_file-id = refl

note_file-IsEmpty : IsEmpty note_file
note_file-IsEmpty = tt

abbrev with_note : MemFs
with_note =
    stored with_inner with_inner-IsMemFs 1 full_root full_root-at note_file note_file-id
      note_file-IsEmpty

with_note-IsMemFs : IsMemFs with_note
with_note-IsMemFs =
    stored-IsMemFs with_inner with_inner-IsMemFs 1 full_root full_root-at note_file note_file-id
      note_file-IsEmpty (omega (arith, with_inner-next))

-- A directory `a` in the root, and an empty directory `b` in it.
abbrev dir_a : Dir
dir_a = new_dir noon (97 ∷ []) 2 1

abbrev dir_b : Dir
dir_b = new_dir noon (98 ∷ []) 3 2

abbrev nested : Fs
nested = linked 2 dir_a (dir dir_b) (linked 1 root (dir dir_a) (new noon))

abbrev dir_a_with_b : Dir
dir_a_with_b = with_child dir_a 3

dir_a-found : lookup nested 1 (97 ∷ []) ≡ ok (dir dir_a_with_b)
unfolding lookup new new_dir
dir_a-found = refl

dir_a-id : dir_a_with_b.attr.fileid ≡ 2
unfolding new_dir
dir_a-id = refl

dir_b-found : lookup nested dir_a_with_b.attr.fileid (98 ∷ []) ≡ ok (dir dir_b)
unfolding lookup new new_dir
dir_b-found = refl

dir_b-empty : dir_b.content ≡ []
unfolding new_dir
dir_b-empty = refl

dir_b-removed :
    remove dir_a_with_b.attr.fileid (98 ∷ []) nested
    ≡ (ok tt, (remove dir_a_with_b.attr.fileid (98 ∷ []) nested).1)
unfolding remove new new_dir
dir_b-removed = refl

rename_example :
    rename 2 1 (97 ∷ []) dir_a_with_b.attr.fileid (98 ∷ []) nested
    ≡ (err (status nfs3err_inval), (remove dir_a_with_b.attr.fileid (98 ∷ []) nested).1)
rename_example =
    rename-remove 1 nested (remove dir_a_with_b.attr.fileid (98 ∷ []) nested).1 1 (97 ∷ [])
      (98 ∷ []) dir_a_with_b dir_b dir_a-found (λ e. omega (arith, dir_a-id, e)) dir_b-found
      dir_b-empty dir_b-removed

-- A handle from an earlier run of the server.
stale_example :
    fh_from_nfs file_handle_u64
      (converter 1700000000001)
      (fh_to_nfs file_handle_u64 (converter 1700000000000) 42)
    ≡ answer (compare (1700000000000 % 2 ^ 64) (1700000000001 % 2 ^ 64)) 42
stale_example =
    fh_from_nfs-verdict file_handle_u64 (λ id. id < 2 ^ 64) file_handle_u64-LawfulHandle
      1700000000001 1700000000000 42 (omega arith)
