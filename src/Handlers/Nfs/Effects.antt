-- ===== src/Handlers/Nfs/Effects.antt =====
-- What the procedures of crates/nfs3_server/src/nfs_handlers.rs do to the state of the file system, from
-- what its operations do.
pub mod Reading
pub mod Writing
use nfs.Prelude.{ℕ, zero, suc, Bool, List, Result, ok, err}
use nfs.Nfs3.Status.{Nfsstat3}
use nfs.Nfs3.Attributes.{Sattr3}
use nfs.Vfs.Action.{Action, Moves, pure-Moves, panic-Moves, bind-Moves, pure, ◌>>=◌}
use nfs.Vfs.FileSystem.{FileSystem, NextResult, next_ok, next_eof, next_err}
use nfs.Handlers.Context.{RpcContext}
use nfs.Handlers.Nfs.Common.{attributes_of, get_wcc_attr}
use nfs.Handlers.Nfs.Entries.{after_push, round, fill}

-- The operations that read keep a property of the state.
pub record Reads {S H I J : Type 0} (vfs : FileSystem S H I J) (P : S → Type 0) : Type 0 where
  pub lookup_reads : (id : H) (name : List ℕ) → Moves P P (vfs.lookup id name)
  pub getattr_reads : (id : H) → Moves P P (vfs.getattr id)
  pub read_reads : (id : H) (offset count : ℕ) → Moves P P (vfs.read id offset count)
  pub readdir_reads : (id : H) (cookie : ℕ) → Moves P P (vfs.readdir id cookie)
  pub readdirplus_reads : (id : H) (cookie : ℕ) → Moves P P (vfs.readdirplus id cookie)
  pub next_reads : (i : I) → Moves P P (vfs.next i)
  pub next_plus_reads : (j : J) → Moves P P (vfs.next_plus j)
  pub readlink_reads : (id : H) → Moves P P (vfs.readlink id)
  pub fsinfo_reads : (id : H) → Moves P P (vfs.fsinfo id)

-- The operations that write lead from one property to another.
pub record Writes {S H I J : Type 0} (vfs : FileSystem S H I J) (P Q : S → Type 0) : Type 0 where
  pub setattr_writes : (id : H) (attr : Sattr3) → Moves P Q (vfs.setattr id attr)
  pub write_writes : (id : H) (offset : ℕ) (bytes : List ℕ) → Moves P Q (vfs.write id offset bytes)
  pub create_writes : (id : H) (name : List ℕ) (attr : Sattr3) → Moves P Q (vfs.create id name attr)
  pub create_exclusive_writes :
      (id : H) (name verf : List ℕ) → Moves P Q (vfs.create_exclusive id name verf)
  pub mkdir_writes : (id : H) (name : List ℕ) → Moves P Q (vfs.mkdir id name)
  pub remove_writes : (id : H) (name : List ℕ) → Moves P Q (vfs.remove id name)
  pub rename_writes :
      (from : H) (from_name : List ℕ) (to : H) (to_name : List ℕ)
      → Moves P Q (vfs.rename from from_name to to_name)
  pub symlink_writes :
      (id : H) (name target : List ℕ) (attr : Sattr3) → Moves P Q (vfs.symlink id name target attr)

module _ {S : Type 0} (P Q : S → Type 0) (weaker : (s : S) → P s → Q s) where
  pub then-Moves :
      {A B : Type 0} (m : Action S A) (f : A → Action S B)
      → Moves P P m
      → ((a : A) → Moves P Q (f a))
      → Moves P Q (m >>= f)
  then-Moves m f first rest = bind-Moves P Q P m f weaker first rest

  pub write_then-Moves :
      {A B : Type 0} (m : Action S A) (f : A → Action S B)
      → Moves P Q m
      → ((a : A) → Moves Q Q (f a))
      → Moves P Q (m >>= f)
  write_then-Moves m f first rest = bind-Moves P Q Q m f (λ s h. h) first rest

  pub end-Moves : {A : Type 0} (a : A) → Moves P Q (pure {S = S} a)
  end-Moves a = pure-Moves P Q a weaker

module _ {S H I J : Type 0} (context : RpcContext S H I J) (P : S → Type 0)
    (reads : Reads context.vfs P) where
  pub attributes_of-Moves : (id : H) → Moves P P (attributes_of context id)
  unfolding attributes_of
  attributes_of-Moves id =
      then-Moves P P (λ s h. h) _ _ (reads.getattr_reads id) (λ a. end-Moves P P (λ s h. h) _)

  pub get_wcc_attr-Moves : (id : H) → Moves P P (get_wcc_attr context id)
  unfolding get_wcc_attr
  get_wcc_attr-Moves id =
      then-Moves P P (λ s h. h) _ _ (reads.getattr_reads id) (λ a. end-Moves P P (λ s h. h) _)

-- The loop over the entries does what the iterator does.
module _ {S I E B : Type 0} (next : I → Action S (NextResult E × I))
    (push : E → B → Result (Unit {0}) E × B) (P : S → Type 0)
    (reads : (i : I) → Moves P P (next i)) where
  after_push-Moves :
      (rest : B → Action S (Result (B × Bool) Nfsstat3)) (p : Result (Unit {0}) E × B)
      → ((b : B) → Moves P P (rest b))
      → Moves P P (after_push next push rest p)
  after_push-Moves rest (ok done, b) later = later b
  after_push-Moves rest (err refused, b) later = pure-Moves P P _ (λ s h. h)

  round-Moves :
      (rest : I → B → Action S (Result (B × Bool) Nfsstat3)) (b : B) (r : NextResult E × I)
      → ((i : I) (b' : B) → Moves P P (rest i b'))
      → Moves P P (round next push rest b r)
  round-Moves rest b (next_ok e, i) later = after_push-Moves (rest i) (push e b) (later i)
  round-Moves rest b (next_eof, i) later = pure-Moves P P _ (λ s h. h)
  round-Moves rest b (next_err stat, i) later = pure-Moves P P _ (λ s h. h)

  pub fill-Moves : (fuel : ℕ) (i : I) (b : B) → Moves P P (fill next push fuel i b)
  unfolding fill
  fill-Moves zero i b = panic-Moves P P (λ s h. h)
  fill-Moves (suc fuel) i b =
      then-Moves P P (λ s h. h) (next i) (round next push (fill next push fuel) b) (reads i)
        (λ r. round-Moves (fill next push fuel) b r (fill-Moves fuel))
