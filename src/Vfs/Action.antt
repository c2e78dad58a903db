-- ===== src/Vfs/Action.antt =====
-- What a future of crates/nfs3_server/src does to the state that it shares, when it is run to its end.
-- It returns a value, or `none` where it panics or never ends; what it did to the state before stays
-- done.
pub mod Returns
use nfs.Prelude.{Option, none, some, Result, ok, err, Bool, true, false, if◌then◌else◌}
use nfs.Nfs3.Status.{Nfsstat3}

abbrev pub Action : Type 0 → Type 0 → Type 0
Action S A = S → Option A × S

module _ {S A : Type 0} where
  unfoldable pub pure : A → Action S A
  pure a s = (some a, s)

  unfoldable pub panic : Action S A
  panic s = (none, s)

-- The rest of a future behind the value of a first part, if there is one.
abbrev pub follow_up : {S A B : Type 0} → (A → Action S B) → Option A → S → Option B × S
follow_up f none s = (none, s)
follow_up f (some a) s = f a s

infixl 5 ◌>>=◌
unfoldable pub ◌>>=◌ : {S A B : Type 0} → Action S A → (A → Action S B) → Action S B
◌>>=◌ m f s = follow_up f (m s).0 (m s).1

-- `match` on the result of an operation.
unfoldable pub on_result :
    {S A B : Type 0} → Result A Nfsstat3 → (A → Action S B) → (Nfsstat3 → Action S B) → Action S B
on_result (ok a) succeeded failed = succeeded a
on_result (err e) succeeded failed = failed e

-- An action on the state where `P` holds before leaves it where `Q` holds.
pub record Moves {S A : Type 0} (P Q : S → Type 0) (m : Action S A) : Type 0 where
  pub leads : (s : S) → P s → Q (m s).1

module _ {S : Type 0} (P Q : S → Type 0) where
  pub pure-Moves : {A : Type 0} (a : A) → ((s : S) → P s → Q s) → Moves P Q (pure {S = S} a)
  unfolding pure
  pure-Moves a weaker = record { leads = weaker }

  pub panic-Moves : {A : Type 0} → ((s : S) → P s → Q s) → Moves P Q (panic {S = S} {A = A})
  unfolding panic
  panic-Moves weaker = record { leads = weaker }

  bound-Moves :
      {A B : Type 0} (M : S → Type 0) (f : A → Action S B) (o : Option A) (s : S)
      → ((s : S) → M s → Q s)
      → ((a : A) → Moves M Q (f a))
      → M s
      → Q (follow_up f o s).1
  bound-Moves M f none s weaker rest h = weaker s h
  bound-Moves M f (some a) s weaker rest h = (rest a).leads s h

  pub bind-Moves :
      {A B : Type 0} (M : S → Type 0) (m : Action S A) (f : A → Action S B)
      → ((s : S) → M s → Q s)
      → Moves P M m
      → ((a : A) → Moves M Q (f a))
      → Moves P Q (m >>= f)
  unfolding ◌>>=◌
  bind-Moves M m f weaker first rest = record {
    leads = λ s h. bound-Moves M f (m s).0 (m s).1 weaker rest (first.leads s h);
  }

  pub on_result-Moves :
      {A B : Type 0} (r : Result A Nfsstat3) (f : A → Action S B) (g : Nfsstat3 → Action S B)
      → ((a : A) → Moves P Q (f a))
      → ((e : Nfsstat3) → Moves P Q (g e))
      → Moves P Q (on_result r f g)
  unfolding on_result
  on_result-Moves (ok a) f g succeeded failed = succeeded a
  on_result-Moves (err e) f g succeeded failed = failed e

  pub if-Moves :
      {B : Type 0} (b : Bool) (m n : Action S B)
      → Moves P Q m
      → Moves P Q n
      → Moves P Q (if b then m else n)
  if-Moves true m n first second = first
  if-Moves false m n first second = second
