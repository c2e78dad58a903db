-- ===== src/Vfs/Handle.antt =====
-- File handles and `FileHandleConverter` of crates/nfs3_server/src/vfs/handle.rs. The time at which
-- the server starts, in milliseconds, is an argument; the machine is little-endian.
pub mod Generations
use nfs.Prelude.{
  ℕ, zero, suc, ◌+◌, ◌*◌, ◌/◌, ◌%◌, ◌^◌, ◌==◌, Option, none, some, List, [], ◌∷◌, ◌++◌, Result, ok,
  err, ◌>>=◌, ◌>>◌, ok_or, length, take, drop, ltb, bytes_eq, if◌then◌else◌,
}
use nfs.Nfs3.Status.{Nfsstat3, nfs3err_badhandle, nfs3err_stale}

-- `FileHandle`: what a file system says of its handles.
pub record FileHandle (H : Type 0) : Type 0 where
  pub as_bytes : H → List ℕ
  pub from_bytes : List ℕ → Option H

-- `n` bytes of a number, the lowest first, and back.
unfoldable pub le_bytes : ℕ → ℕ → List ℕ
le_bytes zero n = []
le_bytes (suc k) n = (n % 256) ∷ le_bytes k (n / 256)

unfoldable pub from_le_bytes : List ℕ → ℕ
from_le_bytes [] = 0
from_le_bytes (b ∷ bytes) = b + 256 * from_le_bytes bytes

-- `FileHandleU64` is the number of its eight bytes.
abbrev pub file_handle_u64 : FileHandle ℕ
file_handle_u64 = record {
  as_bytes = λ id. le_bytes 8 id;
  from_bytes = λ bytes. if length bytes == 8 then some (from_le_bytes bytes) else none;
}

pub record FileHandleConverter : Type 0 where
  pub generation_number : ℕ
  pub generation_number_le : List ℕ

-- `FileHandleConverter::new`, with the truncation of `as u64`.
unfoldable pub converter : ℕ → FileHandleConverter
converter millis = record {
  generation_number = millis % 2 ^ 64;
  generation_number_le = le_bytes 8 (millis % 2 ^ 64);
}

unfoldable pub check_handle : FileHandleConverter → List ℕ → Result (Unit {0}) Nfsstat3
check_handle c id =
    if ltb (length id) 8
    then err nfs3err_badhandle
    else if bytes_eq (take 8 id) c.generation_number_le
    then ok tt
    else if ltb (from_le_bytes (take 8 id)) c.generation_number
    then err nfs3err_stale
    else err nfs3err_badhandle

module _ {H : Type 0} (handle : FileHandle H) where
  unfoldable pub fh_to_nfs : FileHandleConverter → H → List ℕ
  fh_to_nfs c id = c.generation_number_le ++ handle.as_bytes id

  unfoldable pub fh_from_nfs : FileHandleConverter → List ℕ → Result H Nfsstat3
  fh_from_nfs c id = do check_handle c id; ok_or (handle.from_bytes (drop 8 id)) nfs3err_badhandle
