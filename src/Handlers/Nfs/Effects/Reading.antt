-- ===== src/Handlers/Nfs/Effects/Reading.antt =====
-- The procedures of crates/nfs3_server/src/nfs_handlers.rs that read, and the state behind them.
use nfs.Prelude.{ℕ, ◌^◌, not, ◌&&◌, Option, ltb, length}
use nfs.Nfs3.Attributes.{Fattr3}
use nfs.Nfs3.Procedures.{
  Arguments, nfsproc3_null, nfsproc3_getattr, nfsproc3_lookup, nfsproc3_read, nfsproc3_fsinfo,
  nfsproc3_access, nfsproc3_pathconf, nfsproc3_fsstat, nfsproc3_readlink, nfsproc3_readdir,
  nfsproc3_readdirplus,
}
use nfs.Vfs.Action.{pure, ◌>>=◌, Action, Moves, on_result-Moves, if-Moves, panic-Moves}
use nfs.Handlers.Context.{RpcContext}
use nfs.Handlers.Nfs.Common.{attributes_of}
use nfs.Handlers.Nfs.Read.{null, getattr, lookup, read, fsinfo, access, pathconf, fsstat, readlink}
use nfs.Handlers.Nfs.Entries.{from_attr}
use nfs.Handlers.Nfs.Listing.{
  is_bad_cookie, empty_len, is_empty, readdir_within, readdir, next_entry, readdirplus_within,
  readdirplus,
}
use nfs.Handlers.Nfs.Effects.{Reads, then-Moves, end-Moves, attributes_of-Moves, fill-Moves}

module _ {S H I J : Type 0} (context : RpcContext S H I J) (P : S → Type 0)
    (reads : Reads context.vfs P) where
  next :
      {A B : Type 0} (m : Action S A) (f : A → Action S B)
      → Moves P P m
      → ((a : A) → Moves P P (f a))
      → Moves P P (m >>= f)
  next = then-Moves P P (λ s h. h)

  done : {A : Type 0} (a : A) → Moves P P (pure {S = S} a)
  done = end-Moves P P (λ s h. h)

  attributes : (id : H) → Moves P P (attributes_of context id)
  attributes = attributes_of-Moves context P reads

  pub null-Moves : (args : Arguments nfsproc3_null) → Moves P P (null context args)
  unfolding null
  null-Moves args = done tt

  pub getattr-Moves : (args : Arguments nfsproc3_getattr) → Moves P P (getattr context args)
  unfolding getattr
  getattr-Moves args =
      on_result-Moves P P _ _ _
        (λ id.
          next _ _ (reads.getattr_reads id)
            (λ attr. on_result-Moves P P attr _ _ (λ a. done _) (λ e. done _)))
        (λ e. done _)

  pub lookup-Moves : (args : Arguments nfsproc3_lookup) → Moves P P (lookup context args)
  unfolding lookup
  lookup-Moves args =
      on_result-Moves P P _ _ _
        (λ id. next _ _ (attributes id) (λ attr.
          next _ _ (reads.lookup_reads id args.what.name) (λ found.
            on_result-Moves P P found _ _ (λ fid. next _ _ (attributes fid) (λ a. done _))
              (λ e. done _))))
        (λ e. done _)

  pub read-Moves : (args : Arguments nfsproc3_read) → Moves P P (read context args)
  unfolding read
  read-Moves args =
      on_result-Moves P P _ _ _
        (λ id. next _ _ (attributes id) (λ attr.
          next _ _ (reads.read_reads id args.offset args.count) (λ result.
            on_result-Moves P P result _ _
              (λ r.
                if-Moves P P (ltb (length r.0) (2 ^ 32)) _ _ (done _) (panic-Moves P P (λ s h. h)))
              (λ e. done _))))
        (λ e. done _)

  pub fsinfo-Moves : (args : Arguments nfsproc3_fsinfo) → Moves P P (fsinfo context args)
  unfolding fsinfo
  fsinfo-Moves args =
      on_result-Moves P P _ _ _
        (λ id.
          next _ _ (reads.fsinfo_reads id)
            (λ result. on_result-Moves P P result _ _ (λ a. done _) (λ e. done _)))
        (λ e. done _)

  pub access-Moves : (args : Arguments nfsproc3_access) → Moves P P (access context args)
  unfolding access
  access-Moves args =
      on_result-Moves P P _ _ _ (λ id. next _ _ (attributes id) (λ a. done _)) (λ e. done _)

  pub pathconf-Moves : (args : Arguments nfsproc3_pathconf) → Moves P P (pathconf context args)
  unfolding pathconf
  pathconf-Moves args =
      on_result-Moves P P _ _ _ (λ id. next _ _ (attributes id) (λ a. done _)) (λ e. done _)

  pub fsstat-Moves : (args : Arguments nfsproc3_fsstat) → Moves P P (fsstat context args)
  unfolding fsstat
  fsstat-Moves args =
      on_result-Moves P P _ _ _ (λ id. next _ _ (attributes id) (λ a. done _)) (λ e. done _)

  pub readlink-Moves : (args : Arguments nfsproc3_readlink) → Moves P P (readlink context args)
  unfolding readlink
  readlink-Moves args =
      on_result-Moves P P _ _ _
        (λ id. next _ _ (attributes id) (λ attr.
          next _ _ (reads.readlink_reads id)
            (λ result. on_result-Moves P P result _ _ (λ a. done _) (λ e. done _))))
        (λ e. done _)

  readdir_within-Moves :
      (id : H) (cookie max : ℕ) (attr : Option Fattr3)
      → Moves P P (readdir_within context id cookie max attr)
  unfolding readdir_within
  readdir_within-Moves id cookie max attr = next _ _ (reads.readdir_reads id cookie) (λ iter.
      on_result-Moves P P iter _ _
        (λ start. next _ _ (fill-Moves _ _ P reads.next_reads _ start _) (λ filled.
          on_result-Moves P P filled _ _
            (λ r. if-Moves P P (is_empty r.0.list && not r.1) _ _ (done _) (done _)) (λ e. done _)))
        (λ e. done _))

  pub readdir-Moves :
      (xid : ℕ) (args : Arguments nfsproc3_readdir) → Moves P P (readdir context xid args)
  unfolding readdir
  readdir-Moves xid args =
      on_result-Moves P P _ _ _
        (λ id. next _ _ (attributes id) (λ attr.
          if-Moves P P (is_bad_cookie args (from_attr attr)) _ _ (done _) (
            if-Moves P P (ltb args.count (empty_len xid attr)) _ _ (done _)
              (readdir_within-Moves id args.cookie _ attr))))
        (λ e. done _)

  next_entry-Moves : (j : J) → Moves P P (next_entry context j)
  unfolding next_entry
  next_entry-Moves j = next _ _ (reads.next_plus_reads j) (λ r. done _)

  readdirplus_within-Moves :
      (id : H) (cookie dircount max : ℕ) (attr : Option Fattr3)
      → Moves P P (readdirplus_within context id cookie dircount max attr)
  unfolding readdirplus_within
  readdirplus_within-Moves id cookie dircount max attr =
      next _ _ (reads.readdirplus_reads id cookie) (λ iter.
        on_result-Moves P P iter _ _
          (λ start. next _ _ (fill-Moves _ _ P next_entry-Moves _ start _) (λ filled.
            on_result-Moves P P filled _ _
              (λ r. if-Moves P P (is_empty r.0.entries.list && not r.1) _ _ (done _) (done _))
              (λ e. done _)))
          (λ e. done _))

  pub readdirplus-Moves :
      (args : Arguments nfsproc3_readdirplus) → Moves P P (readdirplus context args)
  unfolding readdirplus
  readdirplus-Moves args =
      on_result-Moves P P _ _ _
        (λ id. next _ _ (attributes id) (λ attr.
          if-Moves P P (ltb args.maxcount 128) _ _ (done _)
            (readdirplus_within-Moves id args.cookie args.dircount _ attr)))
        (λ e. done _)
