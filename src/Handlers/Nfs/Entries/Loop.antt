-- ===== src/Handlers/Nfs/Entries/Loop.antt =====
-- The loop of crates/nfs3_server/src/nfs_handlers.rs that fills a list of entries: an invariant of the
-- list, and the rounds that it takes.
use nfs.Prelude.{ℕ, zero, suc, ◌<◌, ◌≡◌, refl, Bool, Result, ok, err, arith}
use nfs.Nfs3.Status.{Nfsstat3}
use nfs.Vfs.Action.{Action}
use nfs.Vfs.Action.Returns.{
  anything-Returns, Returns, Total, pure-Returns, panic-Returns, bind-Returns, pure-Total,
  bind-Total,
}
use nfs.Vfs.FileSystem.{NextResult, next_ok, next_eof, next_err}
use nfs.Handlers.Nfs.Entries.{after_push, round, fill}

-- A property of the list that the loop returns, where it returns one.
abbrev pub OfList : {B : Type 0} → (B → Type 0) → Result (B × Bool) Nfsstat3 → Type 0
OfList Inv (ok (b, eof)) = Inv b
OfList Inv (err stat) = Unit

module _ {S I E B : Type 0} (next : I → Action S (NextResult E × I))
    (push : E → B → Result (Unit {0}) E × B) where
  module _ (Inv : B → Type 0) (keeps : (e : E) (b : B) → Inv b → Inv (push e b).1) where
    after_push-Returns :
        (rest : B → Action S (Result (B × Bool) Nfsstat3)) (p : Result (Unit {0}) E × B)
        → Inv p.1
        → ((b : B) → Inv b → Returns (OfList Inv) (rest b))
        → Returns (OfList Inv) (after_push next push rest p)
    after_push-Returns rest (ok done, b) h later = later b h
    after_push-Returns rest (err refused, b) h later = pure-Returns (OfList Inv) _ h

    round-Returns :
        (rest : I → B → Action S (Result (B × Bool) Nfsstat3)) (b : B) (r : NextResult E × I)
        → Inv b
        → ((i : I) (b : B) → Inv b → Returns (OfList Inv) (rest i b))
        → Returns (OfList Inv) (round next push rest b r)
    round-Returns rest b (next_ok e, i) h later =
        after_push-Returns (rest i) (push e b) (keeps e b h) (later i)
    round-Returns rest b (next_eof, i) h later = pure-Returns (OfList Inv) _ h
    round-Returns rest b (next_err stat, i) h later = pure-Returns (OfList Inv) _ tt

    pub fill-Returns :
        (fuel : ℕ) (i : I) (b : B) → Inv b → Returns (OfList Inv) (fill next push fuel i b)
    unfolding fill
    fill-Returns zero i b h = panic-Returns (OfList Inv)
    fill-Returns (suc fuel) i b h =
        bind-Returns (OfList Inv) (λ _. Unit) (next i) (round next push (fill next push fuel) b)
          (anything-Returns _)
          (λ r _. round-Returns (fill next push fuel) b r h (fill-Returns fuel))

  -- A list that has less room after each entry that was added is filled in as many rounds as it has
  -- room, and one more.
  module _ (Inv : B → Type 0) (keeps : (e : E) (b : B) → Inv b → Inv (push e b).1) (room : B → ℕ)
      (less : (e : E) (b : B) → Inv b → (push e b).0 ≡ ok tt → room (push e b).1 < room b)
      (total : (i : I) → Total (next i)) where
    after_push-Total :
        (rest : B → Action S (Result (B × Bool) Nfsstat3)) (p : Result (Unit {0}) E × B) (k : ℕ)
        → Inv p.1
        → (p.0 ≡ ok tt → room p.1 < k)
        → ((b : B) → Inv b → room b < k → Total (rest b))
        → Total (after_push next push rest p)
    after_push-Total rest (ok done, b) k h smaller later = later b h (smaller refl)
    after_push-Total rest (err refused, b) k h smaller later = pure-Total _

    round-Total :
        (rest : I → B → Action S (Result (B × Bool) Nfsstat3)) (b : B) (r : NextResult E × I)
        → Inv b
        → ((i : I) (b' : B) → Inv b' → room b' < room b → Total (rest i b'))
        → Total (round next push rest b r)
    round-Total rest b (next_ok e, i) h later =
        after_push-Total (rest i) (push e b) (room b) (keeps e b h) (less e b h) (later i)
    round-Total rest b (next_eof, i) h later = pure-Total _
    round-Total rest b (next_err stat, i) h later = pure-Total _

    pub fill-Total :
        (fuel : ℕ) (i : I) (b : B) → Inv b → room b < fuel → Total (fill next push fuel i b)
    unfolding fill
    fill-Total zero i b h l = absurd (omega arith)
    fill-Total (suc fuel) i b h l =
        bind-Total (next i) (round next push (fill next push fuel) b) (total i) (λ r.
          round-Total (fill next push fuel) b r h
            (λ i' b' h' l'. fill-Total fuel i' b' h' (omega arith)))
