-- ===== src/Handlers/Nfs/Listing/Ends.antt =====
-- The loops of `nfsproc3_readdir` and `nfsproc3_readdirplus` in crates/nfs3_server/src/nfs_handlers.rs
-- end: how many rounds the size that the client asked for allows.
use nfs.Prelude.{ℕ, Bool, not, ◌&&◌, Option, ltb, arith}
use nfs.Xdr.Chain.Bounded
use nfs.Xdr.Chain.Bounded.{BoundedList}
use nfs.Xdr.Chain.Bounded.Fits.{Fits, new-Fits, try_push-Fits, room, try_push-room}
use nfs.Nfs3.Attributes.{Fattr3}
use nfs.Nfs3.Data.{entry3_codec, entryplus3_codec}
use nfs.Nfs3.Args.{Readdir3args, Readdirplus3args}
use nfs.Vfs.Action.Returns.{Total, pure-Total, bind-Total, on_result-Total, if-Total}
use nfs.Vfs.FileSystem.{FileSystem}
use nfs.Handlers.Context.{RpcContext}
use nfs.Handlers.Nfs.Common.{attributes_of}
use nfs.Handlers.Nfs.Entries.{from_attr, BoundedEntryPlusList, new}
use nfs.Handlers.Nfs.Entries.Loop.{fill-Total}
use nfs.Handlers.Nfs.Entries.Counted.{IsCounted, new-IsCounted, try_push-IsCounted, try_push-less}
use nfs.Handlers.Nfs.Listing.{
  is_bad_cookie, empty_len, is_empty, readdir_filled, readdir_within, readdir, next_entry,
  readdirplus_filled, readdirplus_within, readdirplus,
}

-- The operations of a file system that a listing calls do not panic.
pub record ListsTotally {S H I J : Type 0} (vfs : FileSystem S H I J) : Type 0 where
  pub getattr_total : (id : H) → Total (vfs.getattr id)
  pub readdir_total : (id : H) (cookie : ℕ) → Total (vfs.readdir id cookie)
  pub readdirplus_total : (id : H) (cookie : ℕ) → Total (vfs.readdirplus id cookie)
  pub next_total : (i : I) → Total (vfs.next i)
  pub next_plus_total : (j : J) → Total (vfs.next_plus j)

module _ {S H I J : Type 0} (context : RpcContext S H I J) (total : ListsTotally context.vfs) where
  attributes-Total : (id : H) → Total (attributes_of context id)
  unfolding attributes_of
  attributes-Total id = bind-Total _ _ (total.getattr_total id) (λ attr. pure-Total _)

  readdir_filled-Total :
      (attr : Option Fattr3) (r : BoundedList _ × Bool) → Total (readdir_filled context attr r)
  readdir_filled-Total attr (b, eof) =
      if-Total (is_empty b.list && not eof) _ _ (pure-Total _) (pure-Total _)

  readdir_within-Total :
      (dirid : H) (cookie max : ℕ) (attr : Option Fattr3)
      → Total (readdir_within context dirid cookie max attr)
  unfolding readdir_within Bounded.new
  readdir_within-Total dirid cookie max attr =
      bind-Total _ _ (total.readdir_total dirid cookie) (λ iter.
        on_result-Total iter _ _
          (λ start.
            bind-Total _ _
              (fill-Total _ _ (Fits entry3_codec max) (try_push-Fits entry3_codec max)
                (room entry3_codec max) (try_push-room entry3_codec max) total.next_total _ start _
                (new-Fits entry3_codec max) (omega arith))
              (λ filled.
                on_result-Total filled _ _ (readdir_filled-Total attr) (λ stat. pure-Total _)))
          (λ stat. pure-Total _))

  -- READDIR returns from every state, whatever the client sends, if the file system does not panic:
  -- the loop over the entries has rounds enough, even if the iterator has no end.
  pub readdir-Total : (xid : ℕ) (args : Readdir3args) → Total (readdir context xid args)
  unfolding readdir
  readdir-Total xid args =
      on_result-Total _ _ _
        (λ dirid. bind-Total _ _ (attributes-Total dirid) (λ attr.
          if-Total (is_bad_cookie args (from_attr attr)) _ _ (pure-Total _) (
            if-Total (ltb args.count (empty_len xid attr)) _ _ (pure-Total _)
              (readdir_within-Total dirid args.cookie _ attr))))
        (λ stat. pure-Total _)

  next_entry-Total : (j : J) → Total (next_entry context j)
  unfolding next_entry
  next_entry-Total j = bind-Total _ _ (total.next_plus_total j) (λ r. pure-Total _)

  readdirplus_filled-Total :
      (attr : Option Fattr3) (r : BoundedEntryPlusList × Bool)
      → Total (readdirplus_filled context attr r)
  readdirplus_filled-Total attr (b, eof) =
      if-Total (is_empty b.entries.list && not eof) _ _ (pure-Total _) (pure-Total _)

  readdirplus_within-Total :
      (dirid : H) (cookie dircount max : ℕ) (attr : Option Fattr3)
      → Total (readdirplus_within context dirid cookie dircount max attr)
  unfolding readdirplus_within new Bounded.new
  readdirplus_within-Total dirid cookie dircount max attr =
      bind-Total _ _ (total.readdirplus_total dirid cookie) (λ iter.
        on_result-Total iter _ _
          (λ start.
            bind-Total _ _
              (fill-Total _ _ (IsCounted dircount max) (try_push-IsCounted dircount max)
                (λ b. room entryplus3_codec max b.entries) (try_push-less dircount max)
                next_entry-Total _ start _ (new-IsCounted dircount max) (omega arith))
              (λ filled.
                on_result-Total filled _ _ (readdirplus_filled-Total attr) (λ stat. pure-Total _)))
          (λ stat. pure-Total _))

  -- READDIRPLUS returns from every state, whatever the client sends, if the file system does not panic:
  -- the loop over the entries has rounds enough, even if the iterator has no end.
  pub readdirplus-Total : (args : Readdirplus3args) → Total (readdirplus context args)
  unfolding readdirplus
  readdirplus-Total args =
      on_result-Total _ _ _
        (λ dirid. bind-Total _ _ (attributes-Total dirid) (λ attr.
          if-Total (ltb args.maxcount 128) _ _ (pure-Total _)
            (readdirplus_within-Total dirid args.cookie args.dircount _ attr)))
        (λ stat. pure-Total _)
