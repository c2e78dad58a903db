-- ===== src/Handlers/Nfs/Listing.antt =====
-- `nfsproc3_readdir` and `nfsproc3_readdirplus` of crates/nfs3_server/src/nfs_handlers.rs.
pub mod Bounds
pub mod BoundsPlus
pub mod Ends
use nfs.Prelude.{
  ℕ, ◌+◌, ◌-◌, Bool, true, false, not, ◌&&◌, Option, none, List, [], ◌∷◌, ◌==◌, ltb, bytes_eq,
  if◌then◌else◌,
}
use nfs.Xdr.Primitives.{u32_codec}
use nfs.Xdr.Chain.Bounded
use nfs.Xdr.Chain.Bounded.{BoundedList}
use nfs.Nfs3.Status.{succeeded, failed, nfs3err_bad_cookie, nfs3err_toosmall}
use nfs.Nfs3.Attributes.{Fattr3}
use nfs.Nfs3.Data.{Entry3, entry3_codec, Entryplus3}
use nfs.Nfs3.Args.{Readdir3args}
use nfs.Nfs3.Resok.{Readdir3resok, readdir3resok_codec, Readdirplus3resok}
use nfs.Nfs3.Procedures.{ResultOf, nfsproc3_readdir, nfsproc3_readdirplus}
use nfs.Vfs.Action.{Action, pure, ◌>>=◌, on_result}
use nfs.Vfs.FileSystem.{NextResult, next_ok, next_eof, next_err, DirEntryPlus, into_entry}
use nfs.Handlers.Context.{RpcContext}
use nfs.Handlers.Nfs.Common.{Procedure, fh_to_id, attributes_of}
use nfs.Handlers.Nfs.Entries
use nfs.Handlers.Nfs.Entries.{from_attr, is_none, BoundedEntryPlusList, fill}

abbrev pub is_empty : {A : Type 0} → List A → Bool
is_empty [] = true
is_empty (x ∷ xs) = false

-- The tests on the verifier and the cookie of the call, against the verifier of the directory.
abbrev pub is_bad_cookie : Readdir3args → List ℕ → Bool
is_bad_cookie args cookieverf =
    if is_none args.cookieverf
    then not (args.cookie == 0)
    else not (bytes_eq args.cookieverf cookieverf)

abbrev pub readdir_reply : Option Fattr3 → List Entry3 → Bool → Readdir3resok
readdir_reply dir_attributes entries eof = record {
  dir_attributes = dir_attributes;
  cookieverf = from_attr dir_attributes;
  reply = record { entries = entries; eof = eof };
}

abbrev pub readdirplus_reply : Option Fattr3 → List Entryplus3 → Bool → Readdirplus3resok
readdirplus_reply dir_attributes entries eof = record {
  dir_attributes = dir_attributes;
  cookieverf = from_attr dir_attributes;
  reply = record { entries = entries; eof = eof };
}

-- `empty_len`: the size of the reply without entries, with that of the transaction id.
abbrev pub empty_len : ℕ → Option Fattr3 → ℕ
empty_len xid dir_attributes =
    u32_codec.packed_size xid
    + readdir3resok_codec.packed_size (readdir_reply dir_attributes [] false)

module _ {S H I J : Type 0} (context : RpcContext S H I J) where
  -- The answer to what the loop returned.
  abbrev pub readdir_filled :
      Option Fattr3 → BoundedList Entry3 × Bool → Action S (ResultOf nfsproc3_readdir)
  readdir_filled dir_attributes (b, eof) =
      if is_empty b.list && not eof
      then pure (failed nfs3err_toosmall (record { dir_attributes = dir_attributes }))
      else pure (succeeded (readdir_reply dir_attributes b.list eof))

  -- From `let max_bytes_allowed` on. The loop has as many rounds as there are bytes, and one more.
  unfoldable pub readdir_within : H → ℕ → ℕ → Option Fattr3 → Action S (ResultOf nfsproc3_readdir)
  unfolding fill
  readdir_within dirid cookie max_bytes_allowed dir_attributes = do
    iter ← context.vfs.readdir dirid cookie
    on_result iter
        (λ start. do
          filled ←
              fill context.vfs.next (Bounded.try_push entry3_codec) (max_bytes_allowed + 1) start
                (Bounded.new entry3_codec max_bytes_allowed)
          on_result filled (readdir_filled dir_attributes)
              (λ stat. pure (failed stat (record { dir_attributes = dir_attributes }))))
        (λ stat. pure (failed stat (record { dir_attributes = dir_attributes })))

  -- The transaction id is an argument, since its size counts.
  unfoldable pub readdir : ℕ → Procedure S nfsproc3_readdir
  unfolding readdir_within
  readdir xid args =
      fh_to_id context args.dir (record { dir_attributes = none })
        (λ dirid. do
          dir_attributes ← attributes_of context dirid
          if is_bad_cookie args (from_attr dir_attributes)
              then pure (failed nfs3err_bad_cookie (record { dir_attributes = none }))
              else if ltb args.count (empty_len xid dir_attributes)
              then pure (failed nfs3err_toosmall (record { dir_attributes = dir_attributes }))
              else readdir_within dirid args.cookie (args.count - empty_len xid dir_attributes)
                  dir_attributes)

  -- `iter.next()` with `into_entry`.
  abbrev pub plus_entry : NextResult (DirEntryPlus H) → NextResult Entryplus3
  plus_entry (next_ok e) = next_ok (into_entry context.file_handle context.file_handle_converter e)
  plus_entry next_eof = next_eof
  plus_entry (next_err stat) = next_err stat

  unfoldable pub next_entry : J → Action S (NextResult Entryplus3 × J)
  next_entry iter = do (result, iter') ← context.vfs.next_plus iter; pure (plus_entry result, iter')

  abbrev pub readdirplus_filled :
      Option Fattr3 → BoundedEntryPlusList × Bool → Action S (ResultOf nfsproc3_readdirplus)
  readdirplus_filled dir_attributes (b, eof) =
      if is_empty b.entries.list && not eof
      then pure (failed nfs3err_toosmall (record { dir_attributes = dir_attributes }))
      else pure (succeeded (readdirplus_reply dir_attributes b.entries.list eof))

  unfoldable pub readdirplus_within :
      H → ℕ → ℕ → ℕ → Option Fattr3 → Action S (ResultOf nfsproc3_readdirplus)
  unfolding fill next_entry
  readdirplus_within dirid cookie dircount max_bytes_allowed dir_attributes = do
    iter ← context.vfs.readdirplus dirid cookie
    on_result iter
        (λ start. do
          filled ←
              fill next_entry Entries.try_push (max_bytes_allowed + 1) start
                (Entries.new dircount max_bytes_allowed)
          on_result filled (readdirplus_filled dir_attributes)
              (λ stat. pure (failed stat (record { dir_attributes = dir_attributes }))))
        (λ stat. pure (failed stat (record { dir_attributes = dir_attributes })))

  unfoldable pub readdirplus : Procedure S nfsproc3_readdirplus
  unfolding readdirplus_within
  readdirplus args =
      fh_to_id context args.dir (record { dir_attributes = none })
        (λ dirid. do
          dir_attributes ← attributes_of context dirid
          if ltb args.maxcount 128
              then pure (failed nfs3err_toosmall (record { dir_attributes = dir_attributes }))
              else readdirplus_within dirid args.cookie args.dircount (args.maxcount - 128)
                  dir_attributes)
