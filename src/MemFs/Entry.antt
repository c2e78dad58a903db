-- ===== src/MemFs/Entry.antt =====
-- `Dir`, `File` and `Entry` of crates/nfs3_server/src/memfs/mod.rs, with the attributes and statuses
-- of crates/nfs3_types/src/nfs3.rs that they use. A handle is its number, a name its bytes. The time
-- is an argument of what reads the clock, and `usize` has 64 bits.
use nfs.Prelude.{
  ℕ, ◌+◌, ◌-◌, ◌%◌, ◌^◌, Bool, true, false, Option, none, some, List, [], ◌∷◌, ◌++◌, Result, ok,
  err, length, take, drop, replicate, ltb, leb, if◌then◌else◌, ◌==◌, ◌&&◌,
}
use nfs.Nfs3.Status.{Nfsstat3, nfs3err_inval, nfs3err_notdir, nfs3err_isdir}
use nfs.Nfs3.Attributes.{
  Nfstime3, Specdata3, nf3reg, nf3dir, Fattr3, SetTime, dont_change, set_to_server_time,
  set_to_client_time, Sattr3,
}

-- The set of handles of a directory, in the order of its iterator.
abbrev pub contains : ℕ → List ℕ → Bool
contains id [] = false
contains id (x ∷ xs) = if id == x then true else contains id xs

-- `HashSet::insert`: whether the handle is new, and the set with it.
abbrev pub set_insert : ℕ → List ℕ → Bool × List ℕ
set_insert id ids = if contains id ids then (false, ids) else (true, ids ++ (id ∷ []))

-- `HashSet::remove`
abbrev pub set_remove : ℕ → List ℕ → List ℕ
set_remove id [] = []
set_remove id (x ∷ xs) = if id == x then set_remove id xs else x ∷ set_remove id xs

pub record Dir : Type 0 where
  pub name : List ℕ
  pub parent : ℕ
  pub attr : Fattr3
  pub content : List ℕ

pub record File : Type 0 where
  pub name : List ℕ
  pub attr : Fattr3
  pub content : List ℕ
  pub verf : List ℕ

abbrev pub no_device : Specdata3
no_device = record { specdata1 = 0; specdata2 = 0 }

unfoldable pub new_dir : Nfstime3 → List ℕ → ℕ → ℕ → Dir
new_dir now name id parent = record {
  name = name;
  parent = parent;
  attr = record {
    type_ = nf3dir;
    mode = 511;
    nlink = 1;
    uid = 507;
    gid = 507;
    size = 0;
    used = 0;
    rdev = no_device;
    fsid = 0;
    fileid = id;
    atime = now;
    mtime = now;
    ctime = now;
  };
  content = [];
}

unfoldable pub new_file : Nfstime3 → List ℕ → ℕ → List ℕ → List ℕ → File
new_file now name id content verf = record {
  name = name;
  attr = record {
    type_ = nf3reg;
    mode = 493;
    nlink = 1;
    uid = 507;
    gid = 507;
    size = length content;
    used = length content;
    rdev = no_device;
    fsid = 0;
    fileid = id;
    atime = now;
    mtime = now;
    ctime = now;
  };
  content = content;
  verf = verf;
}

-- `Vec::resize` with zeros, where it returns.
abbrev pub vec_resize : ℕ → List ℕ → List ℕ
vec_resize size content = take size content ++ replicate (size - length content) 0

-- The file of the new size.
abbrev pub resized : ℕ → File → File
resized size file = record file {
  content = vec_resize size file.content;
  attr = record file.attr { size = size; used = size };
}

-- `File::resize`. No vector has more than `isize::MAX` bytes: `Vec::resize` panics before it changes
-- anything, which is `none`.
unfoldable pub resize : ℕ → File → Option File
resize size file = if ltb size (2 ^ 63) then some (resized size file) else none

-- The slice `bytes[start..end]`; `none` is its panic.
abbrev pub slice : ℕ → ℕ → List ℕ → Option (List ℕ)
slice start end bytes =
    if leb start end && leb end (length bytes)
    then some (take (end - start) (drop start bytes))
    else none

-- `File::read`: the bytes and whether they reach the end of the file. The sum wraps, as it does in
-- a build without overflow checks.
unfoldable pub read : File → ℕ → ℕ → Option (List ℕ × Bool)
read file offset count =
    let end = (offset + count) % 2 ^ 64 in
    let eof = leb (length file.content) end in
    let start' = if leb (length file.content) offset then length file.content else offset in
    let end' = if ltb (length file.content) end then length file.content else end in
    elim (slice start' end' file.content) [ none ↦ none | some bytes ↦ some (bytes, eof) ]

-- `copy_from_slice` into `content[offset..offset + data.len()]`.
abbrev pub overwrite : ℕ → List ℕ → List ℕ → List ℕ
overwrite offset bytes content =
    take offset content ++ (bytes ++ drop (offset + length bytes) content)

-- The file that the bytes of a write go into, the content grown if it has to be.
unfoldable pub grown_for : ℕ → File → Option File
grown_for end_offset file =
    if ltb (length file.content) end_offset then resize end_offset file else some file

abbrev pub put_bytes : ℕ → List ℕ → File → File
put_bytes offset bytes file = record file { content = overwrite offset bytes file.content }

-- `File::write`; `none` is the panic of the resize, which leaves the file as it was.
unfoldable pub write : File → ℕ → List ℕ → Option (Result (Fattr3 × File) Nfsstat3)
write file offset bytes =
    if ltb (length file.content) offset
    then some (err nfs3err_inval)
    else elim (grown_for (offset + length bytes) file) [
      | none ↦ none
      | some grown ↦ let written = put_bytes offset bytes grown in some (ok (written.attr, written))
    ]

pub data Entry : Type 0 where
  file : File → Entry
  dir : Dir → Entry

abbrev pub as_dir : Entry → Result Dir Nfsstat3
as_dir (dir d) = ok d
as_dir (file f) = err nfs3err_notdir

abbrev pub as_file : Entry → Result File Nfsstat3
as_file (file f) = ok f
as_file (dir d) = err nfs3err_isdir

abbrev pub name_of : Entry → List ℕ
name_of (file f) = f.name
name_of (dir d) = d.name

abbrev pub set_name : List ℕ → Entry → Entry
set_name name (file f) = file (record f { name = name })
set_name name (dir d) = dir (record d { name = name })

abbrev pub attr_of : Entry → Fattr3
attr_of (file f) = f.attr
attr_of (dir d) = d.attr

abbrev pub fileid : Entry → ℕ
fileid e = (attr_of e).fileid

-- `attr_mut`
abbrev pub with_attr : Fattr3 → Entry → Entry
with_attr attr (file f) = file (record f { attr = attr })
with_attr attr (dir d) = dir (record d { attr = attr })

-- The `match` on `setattr.atime` and on `setattr.mtime`, and `if let … Some`.
abbrev pub chosen_time : Nfstime3 → SetTime → Nfstime3 → Nfstime3
chosen_time now dont_change old = old
chosen_time now (set_to_client_time c) old = c
chosen_time now set_to_server_time old = now

abbrev pub chosen : Option ℕ → ℕ → ℕ
chosen none old = old
chosen (some u) old = u

-- The file behind a resize, and the file behind its panic.
abbrev pub behind_resize : File → Option File → Option (Unit {0}) × Entry
behind_resize f none = (none, file f)
behind_resize f (some f') = (some tt, file f')

-- The last step of `Entry::set_attr`: a size changes a file only. The first component is `none` for
-- a panic, the second the entry that is left in either case.
abbrev pub set_size : Option ℕ → Entry → Option (Unit {0}) × Entry
set_size (some s) (file f) = behind_resize f (resize s f)
set_size _ entry = (some tt, entry)

unfoldable pub set_attr : Nfstime3 → Sattr3 → Entry → Option (Unit {0}) × Entry
set_attr now setattr entry =
    let attr = attr_of entry in
    set_size setattr.size (
      with_attr
        (record attr {
          atime = chosen_time now setattr.atime attr.atime;
          mtime = chosen_time now setattr.mtime attr.mtime;
          uid = chosen setattr.uid attr.uid;
          gid = chosen setattr.gid attr.gid;
        })
        entry)
