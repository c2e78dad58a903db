-- ===== src/MemFs/Store.antt =====
-- `Fs` of crates/nfs3_server/src/memfs/mod.rs: `new`, `push`, `remove` and `lookup`. The hash map is
-- a function from handles. An operation returns its result with the file system that it leaves,
-- after a failure too.
use nfs.Prelude.{
  bytes_eq, ℕ, Bool, false, Option, none, some, List, [], ◌∷◌, Result, ok, err, ◌>>=◌, ok_or, ◌==◌,
  if◌then◌else◌,
}
use nfs.Nfs3.Status.{
  Nfsstat3, nfs3err_exist, nfs3err_noent, nfs3err_notdir, nfs3err_inval, nfs3err_notempty,
  nfs3err_serverfault,
}
use nfs.Nfs3.Attributes.{Nfstime3}
use nfs.MemFs.Entry.{set_insert, set_remove, new_dir, Entry, file, dir, as_dir, name_of, fileid}

-- How an operation fails: a status, a panic, or a loop that is still running when its fuel is spent.
pub data Failure : Type 0 where
  status : Nfsstat3 → Failure
  panicked : Failure
  still_running : Failure

pub record Fs : Type 0 where
  pub entries : ℕ → Option Entry
  pub root : ℕ

-- `HashMap::insert` and `HashMap::remove`.
abbrev pub map_insert : ℕ → Entry → (ℕ → Option Entry) → ℕ → Option Entry
map_insert id entry entries k = if k == id then some entry else entries k

abbrev pub map_remove : ℕ → (ℕ → Option Entry) → ℕ → Option Entry
map_remove id entries k = if k == id then none else entries k

abbrev pub put : ℕ → Entry → Fs → Fs
put id entry fs = record fs { entries = map_insert id entry fs.entries }

abbrev pub forget : ℕ → Fs → Fs
forget id fs = record fs { entries = map_remove id fs.entries }

-- `Fs::new`, with `Dir::root_dir`.
unfoldable pub new : Nfstime3 → Fs
new now = record { entries = map_insert 1 (dir (new_dir now (47 ∷ []) 1 0)) (λ _. none); root = 1 }

-- The `match parent_entry` of `push`, on the file system that has the new entry already.
unfoldable pub push_to : ℕ → ℕ → Fs → Option Entry → Result (Unit {0}) Failure × Fs
push_to parent id fs none = (err (status nfs3err_noent), forget id fs)
push_to parent id fs (some (file f)) = (err (status nfs3err_notdir), forget id fs)
push_to parent id fs (some (dir d)) =
    let (added, content) = set_insert id d.content in
    if added
    then (ok tt, put parent (dir (record d { content = content })) fs)
    else (err panicked, fs)

unfoldable pub push : ℕ → Entry → Fs → Result (Unit {0}) Failure × Fs
unfolding push_to
push parent entry fs = elim (fs.entries (fileid entry)) [
  | some occupied ↦ (err (status nfs3err_exist), fs)
  | none ↦
      let fs' = put (fileid entry) entry fs in
      push_to parent (fileid entry) fs' (fs'.entries parent)
]

abbrev pub dot : List ℕ
dot = 46 ∷ []

abbrev pub dot_dot : List ℕ
dot_dot = 46 ∷ 46 ∷ []

-- `is_some_and(|f| f.name() == filename)`
abbrev pub has_name : List ℕ → Option Entry → Bool
has_name filename none = false
has_name filename (some f) = bytes_eq (name_of f) filename

-- `dir.content.iter().find(…)` of `remove`.
unfoldable pub find_by_name : (ℕ → Option Entry) → List ℕ → List ℕ → Option ℕ
find_by_name entries filename [] = none
find_by_name entries filename (i ∷ ids) =
    if has_name filename (entries i) then some i else find_by_name entries filename ids

-- The test on the directory that is to be removed.
abbrev pub check_content : List ℕ → Result (Unit {0}) Nfsstat3
check_content [] = ok tt
check_content (x ∷ xs) = err nfs3err_notempty

abbrev pub check_empty : Entry → Result (Unit {0}) Nfsstat3
check_empty (file f) = ok tt
check_empty (dir d) = check_content d.content

-- What `remove` takes away, before it changes anything.
unfoldable pub remove_target : Fs → ℕ → List ℕ → Result ℕ Nfsstat3
unfolding find_by_name
remove_target fs dirid filename =
    if bytes_eq filename dot
    then err nfs3err_inval
    else if bytes_eq filename dot_dot
    then err nfs3err_inval
    else (do
      entry ← ok_or (fs.entries dirid) nfs3err_noent
      d ← as_dir entry
      object_id ← ok_or (find_by_name fs.entries filename d.content) nfs3err_noent
      object ← ok_or (fs.entries object_id) nfs3err_noent
      _ ← check_empty object
      ok object_id)

-- The end of `remove`: `get_mut(&dirid).expect(…).as_dir_mut()?`, with the object gone.
unfoldable pub unlink : ℕ → ℕ → Fs → Option Entry → Result (Unit {0}) Failure × Fs
unlink dirid object_id fs none = (err panicked, fs)
unlink dirid object_id fs (some (file f)) = (err (status nfs3err_notdir), fs)
unlink dirid object_id fs (some (dir d)) =
    (ok tt, put dirid (dir (record d { content = set_remove object_id d.content })) fs)

unfoldable pub remove : ℕ → List ℕ → Fs → Result (Unit {0}) Failure × Fs
unfolding remove_target unlink
remove dirid filename fs = elim (remove_target fs dirid filename) [
  | err e ↦ (err (status e), fs)
  | ok object_id ↦ let fs' = forget object_id fs in unlink dirid object_id fs' (fs'.entries dirid)
]

-- The loop of `lookup`.
unfoldable pub lookup_in : (ℕ → Option Entry) → List ℕ → List ℕ → Result Entry Nfsstat3
lookup_in entries filename [] = err nfs3err_noent
lookup_in entries filename (i ∷ ids) = elim (entries i) [
  | none ↦ err nfs3err_serverfault
  | some f ↦ if bytes_eq (name_of f) filename then ok f else lookup_in entries filename ids
]

unfoldable pub lookup : Fs → ℕ → List ℕ → Result Entry Nfsstat3
unfolding lookup_in
lookup fs dirid filename = do
  entry ← ok_or (fs.entries dirid) nfs3err_noent
  d ← as_dir entry
  if bytes_eq filename dot
      then ok entry
      else if bytes_eq filename dot_dot
      then ok_or (fs.entries d.parent) nfs3err_serverfault
      else lookup_in fs.entries filename d.content
