-- ===== src/Handlers/Nfs/Entries.antt =====
-- crates/nfs3_server/src/nfs_ext.rs, the verifier of cookies and the bounded list of entries with
-- attributes, and the loop of crates/nfs3_server/src/nfs_handlers.rs that fills a list of entries.
pub mod Loop
pub mod Counted
use nfs.Prelude.{
  ℕ, zero, suc, ◌+◌, ◌*◌, ◌^◌, Bool, true, false, Option, none, some, List, Result, ok, err, ltb,
  bytes_eq, if◌then◌else◌,
}
use nfs.Xdr.Primitives.{to_be_bytes_u64, u64_codec}
use nfs.Xdr.Chain.Bounded
use nfs.Xdr.Chain.Bounded.{BoundedList}
use nfs.Nfs3.Status.{Nfsstat3}
use nfs.Nfs3.Attributes.{Fattr3}
use nfs.Nfs3.Data.{Entryplus3, entryplus3_codec, filename3_codec}
use nfs.Vfs.Action.{Action, pure, panic, ◌>>=◌}
use nfs.Vfs.FileSystem.{NextResult, next_ok, next_eof, next_err}

abbrev pub none_cookie_verf : List ℕ
none_cookie_verf = to_be_bytes_u64 0

abbrev pub some_cookie_verf : List ℕ
some_cookie_verf = to_be_bytes_u64 0xFFCCFFCCFFCCFFCC

-- The two words do not overlap, so their disjunction is their sum.
unfoldable pub from_attr : Option Fattr3 → List ℕ
from_attr (some attr) = to_be_bytes_u64 (attr.mtime.seconds * 2 ^ 32 + attr.mtime.nseconds)
from_attr none = some_cookie_verf

abbrev pub is_none : List ℕ → Bool
is_none verf = bytes_eq verf none_cookie_verf

pub record BoundedEntryPlusList : Type 0 where
  pub entries : BoundedList Entryplus3
  pub dircount : ℕ
  pub accumulated_dircount : ℕ

unfoldable pub new : ℕ → ℕ → BoundedEntryPlusList
new dircount maxcount = record {
  entries = Bounded.new entryplus3_codec maxcount;
  dircount = dircount;
  accumulated_dircount = 0;
}

-- `added_dircount`: what an entry adds to the directory information.
abbrev pub added_dircount : Entryplus3 → ℕ
added_dircount entry =
    u64_codec.packed_size entry.fileid
    + 4
    + filename3_codec.packed_size entry.name
    + u64_codec.packed_size entry.cookie

-- The count is raised if the entry was added.
abbrev pub counted :
    BoundedEntryPlusList
    → ℕ
    → Result (Unit {0}) Entryplus3 × BoundedList Entryplus3
    → Result (Unit {0}) Entryplus3 × BoundedEntryPlusList
counted b added (ok done, entries) =
    (ok done, record b { entries = entries; accumulated_dircount = b.accumulated_dircount + added })
counted b added (err entry, entries) = (err entry, record b { entries = entries })

unfoldable pub try_push :
    Entryplus3 → BoundedEntryPlusList → Result (Unit {0}) Entryplus3 × BoundedEntryPlusList
try_push entry b =
    if ltb b.dircount (b.accumulated_dircount + added_dircount entry)
    then (err entry, b)
    else counted b (added_dircount entry) (Bounded.try_push entryplus3_codec entry b.entries)

-- The loops of `nfsproc3_readdir` and `nfsproc3_readdirplus`, which differ in the iterator `I`, in the
-- list `B` and in how an entry is added to it. They return the list and `eof`, or the status of the
-- iterator. With no rounds left the loop is taken not to end.
module _ {S I E B : Type 0} (next : I → Action S (NextResult E × I))
    (push : E → B → Result (Unit {0}) E × B) where
  abbrev pub after_push :
      (B → Action S (Result (B × Bool) Nfsstat3))
      → Result (Unit {0}) E × B
      → Action S (Result (B × Bool) Nfsstat3)
  after_push rest (ok done, b') = rest b'
  after_push rest (err refused, b') = pure (ok (b', false))

  -- One round, with what the loop does from the next one on.
  abbrev pub round :
      (I → B → Action S (Result (B × Bool) Nfsstat3))
      → B
      → NextResult E × I
      → Action S (Result (B × Bool) Nfsstat3)
  round rest b (next_ok entry, iter) = after_push (rest iter) (push entry b)
  round rest b (next_eof, iter) = pure (ok (b, true))
  round rest b (next_err stat, iter) = pure (err stat)

  unfoldable pub fill : ℕ → I → B → Action S (Result (B × Bool) Nfsstat3)
  fill zero iter b = panic
  fill (suc fuel) iter b = next iter >>= round (fill fuel) b
