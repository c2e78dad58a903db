-- ===== src/Handlers/Nfs/Listing/BoundsPlus.antt =====
-- The size of the reply of `nfsproc3_readdirplus` in crates/nfs3_server/src/nfs_handlers.rs, against
-- what the client asked for.
use nfs.Prelude.{
  ℕ, ◌+◌, ◌-◌, ◌≤◌, ◌≡◌, Bool, not, ◌&&◌, List, Option, some, none, ltb, inl, inr, arith,
}
use mathlib.Core.Path.{subst}
use nfs.Xdr.Chain.{list_size, list_size_loop}
use nfs.Xdr.Chain.Bounded.Fits.{Fits}
use nfs.Xdr.Chain.Bounded.{BoundedList}
use nfs.Xdr.Util.{add_padding}
use nfs.Xdr.Derive.{struct_codec, ◌&◌, complex_enum_codec, simple_enum_codec}
use nfs.Nfs3.Status.{succeeded, failed}
use nfs.Nfs3.Attributes.{
  Fattr3, fattr3_codec, ftype3_codec, specdata3_codec, nfstime3_codec, option_codec, option_size,
}
use nfs.Nfs3.Data.{Entryplus3, entryplus3_codec, dirlistplus3_codec, cookieverf3_codec}
use nfs.Nfs3.Args.{Readdirplus3args}
use nfs.Nfs3.Resok.{Readdirplus3resok, readdirplus3resok_codec}
use nfs.Nfs3.Procedures.{ResultOf, nfsproc3_readdirplus}
use nfs.Vfs.Action.Returns.{
  Returns, anything-Returns, pure-Returns, bind-Returns, on_result-Returns, if-Returns,
}
use nfs.Handlers.Context.{RpcContext}
use nfs.Handlers.Nfs.Entries.{BoundedEntryPlusList}
use nfs.Handlers.Nfs.Entries.Loop.{OfList, fill-Returns}
use nfs.Handlers.Nfs.Entries.Counted.{dir_bytes, IsCounted, new-IsCounted, try_push-IsCounted}
use nfs.Handlers.Nfs.Listing.{
  is_empty, readdirplus_reply, readdirplus_filled, readdirplus_within, readdirplus,
}

-- What surrounds the entries takes 100 bytes at most, and the end of the list is counted with it.
attributes-size : (attr : Option Fattr3) → (option_codec fattr3_codec).packed_size attr ≤ 88
unfolding option_codec complex_enum_codec option_size fattr3_codec struct_codec ◌&◌ specdata3_codec
    nfstime3_codec ftype3_codec simple_enum_codec
attributes-size none = omega arith
attributes-size (some attr) = omega arith

readdirplus_reply-size :
    (attr : Option Fattr3) (entries : List Entryplus3) (eof : Bool)
    → readdirplus3resok_codec.packed_size (readdirplus_reply attr entries eof)
      ≤ 100 + list_size entryplus3_codec entries
unfolding readdirplus3resok_codec dirlistplus3_codec cookieverf3_codec struct_codec ◌&◌ add_padding
readdirplus_reply-size attr entries eof = omega (arith, attributes-size attr)

abbrev WithinBoth : ℕ → ℕ → ResultOf nfsproc3_readdirplus → Type 0
WithinBoth dircount maxcount (succeeded resok) =
    (readdirplus3resok_codec.packed_size resok ≤ maxcount)
    × (dir_bytes resok.reply.entries ≤ dircount)
WithinBoth dircount maxcount (failed stat resfail) = Unit

list-le :
    (c : ℕ) (b : BoundedList Entryplus3)
    → Fits entryplus3_codec c b
    → list_size entryplus3_codec b.list ≤ c + 4
unfolding list_size list_size_loop
list-le c b (_, _, inl empty) = rw empty (omega arith)
list-le c b (_, _, inr within) = omega arith

module _ {S H I J : Type 0} (context : RpcContext S H I J) (dircount maxcount : ℕ)
    (fits : 128 ≤ maxcount) where
  filled-Returns :
      (attr : Option Fattr3) (r : BoundedEntryPlusList × Bool)
      → IsCounted dircount (maxcount - 128) r.0
      → Returns (WithinBoth dircount maxcount) (readdirplus_filled context attr r)
  filled-Returns attr (b, eof) v =
      if-Returns (WithinBoth dircount maxcount) (is_empty b.entries.list && not eof) _ _
        (λ _. pure-Returns (WithinBoth dircount maxcount) _ tt)
        (λ _.
          pure-Returns (WithinBoth dircount maxcount)
            (succeeded (readdirplus_reply attr b.entries.list eof))
            (
              omega (
                arith,
                readdirplus_reply-size attr b.entries.list eof,
                list-le _ b.entries v.fits,
              ),
              omega (arith, v.exact, v.within),
            ))

  readdirplus_within-Returns :
      (dirid : H) (cookie : ℕ) (attr : Option Fattr3)
      → Returns
          (WithinBoth dircount maxcount)
          (readdirplus_within context dirid cookie dircount (maxcount - 128) attr)
  unfolding readdirplus_within
  readdirplus_within-Returns dirid cookie attr =
      bind-Returns (WithinBoth dircount maxcount) (λ _. Unit) _ _ (anything-Returns _)
        (λ iter _.
          on_result-Returns (WithinBoth dircount maxcount) iter _ _
            (λ start _.
              bind-Returns (WithinBoth dircount maxcount)
                (OfList (IsCounted dircount (maxcount - 128))) _ _
                (fill-Returns _ _ _ (try_push-IsCounted dircount _) _ start _
                  (new-IsCounted dircount _))
                (λ filled f.
                  on_result-Returns (WithinBoth dircount maxcount) filled _ _
                    (λ r is_ok. filled-Returns attr r (subst (OfList _) is_ok f))
                    (λ stat. pure-Returns (WithinBoth dircount maxcount) _ tt)))
            (λ stat. pure-Returns (WithinBoth dircount maxcount) _ tt))

readdirplus-Returns :
    {S H I J : Type 0} (context : RpcContext S H I J) (args : Readdirplus3args)
    → Returns (WithinBoth args.dircount args.maxcount) (readdirplus context args)
unfolding readdirplus
readdirplus-Returns context args =
    let P = WithinBoth args.dircount args.maxcount in
    on_result-Returns P _ _ _
      (λ dirid _.
        bind-Returns P (λ _. Unit) _ _ (anything-Returns _)
          (λ attr _.
            if-Returns P (ltb args.maxcount 128) _ _ (λ _. pure-Returns P _ tt)
              (λ enough.
                readdirplus_within-Returns context args.dircount args.maxcount (ground arith) dirid
                  args.cookie attr)))
      (λ stat. pure-Returns P _ tt)

-- A reply of READDIRPLUS that succeeded takes `maxcount` bytes at most, and the file ids, names and
-- cookies in it take `dircount` bytes at most, whatever the file system and its iterator do.
pub readdirplus-le-counts :
    {S H I J : Type 0} (context : RpcContext S H I J) (args : Readdirplus3args) (s : S)
    (resok : Readdirplus3resok)
    → (readdirplus context args s).0 ≡ some (succeeded resok)
    → (readdirplus3resok_codec.packed_size resok ≤ args.maxcount)
      × (dir_bytes resok.reply.entries ≤ args.dircount)
readdirplus-le-counts context args s resok h =
    (readdirplus-Returns context args).holds s (succeeded resok) h
