-- ===== src/Handlers/Nfs/Listing/Bounds.antt =====
-- The size of the replies of `nfsproc3_readdir` and `nfsproc3_readdirplus` in
-- crates/nfs3_server/src/nfs_handlers.rs, against what the client asked for.
use nfs.Prelude.{some, ℕ, ◌+◌, ◌-◌, ◌≤◌, ◌≡◌, Bool, not, ◌&&◌, List, Option, ltb, inl, inr, arith}
use mathlib.Core.Path.{subst}
use nfs.Xdr.Chain.{list_size, list_size_loop}
use nfs.Xdr.Chain.Bounded.{BoundedList}
use nfs.Xdr.Chain.Bounded.Fits.{Fits, new-Fits, try_push-Fits}
use nfs.Xdr.Derive.{struct_codec, ◌&◌}
use nfs.Nfs3.Status.{succeeded, failed}
use nfs.Nfs3.Attributes.{Fattr3}
use nfs.Nfs3.Data.{Entry3, entry3_codec, dirlist3_codec}
use nfs.Nfs3.Args.{Readdir3args}
use nfs.Nfs3.Resok.{readdir3resok_codec}
use nfs.Nfs3.Procedures.{ResultOf, nfsproc3_readdir}
use nfs.Vfs.Action.Returns.{
  anything-Returns, Returns, pure-Returns, bind-Returns, on_result-Returns, if-Returns,
}
use nfs.Handlers.Context.{RpcContext}
use nfs.Handlers.Nfs.Entries.{from_attr}
use nfs.Handlers.Nfs.Entries.Loop.{OfList, fill-Returns}
use nfs.Handlers.Nfs.Listing.{
  Readdir3resok, is_empty, readdir_reply, empty_len, readdir_filled, readdir_within, readdir,
  is_bad_cookie,
}

-- The entries stand in place of the four bytes of an empty list.
readdir_reply-size :
    (attr : Option Fattr3) (entries : List Entry3) (eof : Bool) (xid : ℕ)
    → readdir3resok_codec.packed_size (readdir_reply attr entries eof) + 8
      ≡ empty_len xid attr + list_size entry3_codec entries
unfolding readdir3resok_codec dirlist3_codec struct_codec ◌&◌ list_size list_size_loop
readdir_reply-size attr entries eof xid = omega arith

-- A reply that succeeded, with four bytes for the transaction id, is as long as asked for at most.
abbrev Within : ℕ → ResultOf nfsproc3_readdir → Type 0
Within count (succeeded resok) = readdir3resok_codec.packed_size resok + 4 ≤ count
Within count (failed stat resfail) = Unit

list-le :
    (c : ℕ) (b : BoundedList Entry3) → Fits entry3_codec c b → list_size entry3_codec b.list ≤ c + 4
unfolding list_size list_size_loop
list-le c b (_, _, inl empty) = rw empty (omega arith)
list-le c b (_, _, inr within) = omega arith

module _ {S H I J : Type 0} (context : RpcContext S H I J) (xid count : ℕ) (attr : Option Fattr3)
    (fits : empty_len xid attr ≤ count) where
  filled-Returns :
      (r : BoundedList Entry3 × Bool)
      → Fits entry3_codec (count - empty_len xid attr) r.0
      → Returns (Within count) (readdir_filled context attr r)
  filled-Returns (b, eof) f =
      if-Returns (Within count) (is_empty b.list && not eof) _ _
        (λ _. pure-Returns (Within count) _ tt)
        (λ _.
          pure-Returns (Within count) (succeeded (readdir_reply attr b.list eof))
            (omega (arith, readdir_reply-size attr b.list eof xid, list-le _ b f)))

  readdir_within-Returns :
      (dirid : H) (cookie : ℕ)
      → Returns
          (Within count)
          (readdir_within context dirid cookie (count - empty_len xid attr) attr)
  unfolding readdir_within
  readdir_within-Returns dirid cookie =
      bind-Returns (Within count) (λ _. Unit) _ _ (anything-Returns _)
        (λ iter _.
          on_result-Returns (Within count) iter _ _
            (λ start _.
              bind-Returns (Within count) (OfList (Fits entry3_codec (count - empty_len xid attr)))
                _ _
                (fill-Returns _ _ _ (try_push-Fits entry3_codec _) _ start _
                  (new-Fits entry3_codec _))
                (λ filled f.
                  on_result-Returns (Within count) filled _ _
                    (λ r is_ok. filled-Returns r (subst (OfList _) is_ok f))
                    (λ stat. pure-Returns (Within count) _ tt)))
            (λ stat. pure-Returns (Within count) _ tt))

-- So it is with every reply, whatever the file system and its iterator do.
pub readdir-Returns :
    {S H I J : Type 0} (context : RpcContext S H I J) (xid : ℕ) (args : Readdir3args)
    → Returns (Within args.count) (readdir context xid args)
unfolding readdir
readdir-Returns context xid args =
    on_result-Returns (Within args.count) _ _ _
      (λ dirid _.
        bind-Returns (Within args.count) (λ _. Unit) _ _ (anything-Returns _)
          (λ attr _.
            if-Returns (Within args.count) (is_bad_cookie args (from_attr attr)) _ _
              (λ _. pure-Returns (Within args.count) _ tt)
              (λ _.
                if-Returns (Within args.count) (ltb args.count (empty_len xid attr)) _ _
                  (λ _. pure-Returns (Within args.count) _ tt)
                  (λ enough.
                    readdir_within-Returns context xid args.count attr (ground arith) dirid
                      args.cookie))))
      (λ stat. pure-Returns (Within args.count) _ tt)

-- A reply of READDIR that succeeded takes, with four bytes for the transaction id, the number of bytes
-- that the client asked for at most, whatever the file system and its iterator do.
pub readdir-le-count :
    {S H I J : Type 0} (context : RpcContext S H I J) (xid : ℕ) (args : Readdir3args) (s : S)
    (resok : Readdir3resok)
    → (readdir context xid args s).0 ≡ some (succeeded resok)
    → readdir3resok_codec.packed_size resok + 4 ≤ args.count
readdir-le-count context xid args s resok h =
    (readdir-Returns context xid args).holds s (succeeded resok) h
