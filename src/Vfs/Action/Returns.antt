-- ===== src/Vfs/Action/Returns.antt =====
-- What holds of every value that a future returns, and futures that return a value from every state.
use nfs.Prelude.{
  arith, ◌≡◌, refl, Bool, true, false, Option, none, some, some-injective, Result, ok, err,
  if◌then◌else◌,
}
use mathlib.Core.Path.{subst}
use nfs.Nfs3.Status.{Nfsstat3}
use nfs.Vfs.Action.{Action, pure, panic, follow_up, ◌>>=◌, on_result}

pub record Returns {S A : Type 0} (P : A → Type 0) (m : Action S A) : Type 0 where
  pub holds : (s : S) (a : A) → (m s).0 ≡ some a → P a

pub record Total {S A : Type 0} (m : Action S A) : Type 0 where
  pub value : (s : S) → (a : A) × ((m s).0 ≡ some a)

module _ {S A : Type 0} (P : A → Type 0) where
  pub pure-Returns : (a : A) → P a → Returns P (pure {S = S} a)
  unfolding pure
  pure-Returns a h = record { holds = λ s b e. subst P (some-injective refl e) h }

  pub panic-Returns : Returns P (panic {S = S})
  unfolding panic
  panic-Returns = record { holds = λ s b e. absurd (ground arith) }

  bound-Returns :
      {B : Type 0} (f : B → Action S A) (o : Option B) (s : S)
      → ((b : B) → o ≡ some b → Returns P (f b))
      → (a : A) → (follow_up f o s).0 ≡ some a
      → P a
  bound-Returns f none s rest a e = absurd (cc)
  bound-Returns f (some b) s rest a e = (rest b refl).holds s a e

  pub bind-Returns :
      {B : Type 0} (M : B → Type 0) (m : Action S B) (f : B → Action S A)
      → Returns M m
      → ((b : B) → M b → Returns P (f b))
      → Returns P (m >>= f)
  unfolding ◌>>=◌
  bind-Returns M m f first rest = record {
    holds = λ s. bound-Returns f (m s).0 (m s).1 (λ b e. rest b (first.holds s b e));
  }

  pub on_result-Returns :
      {B : Type 0} (r : Result B Nfsstat3) (f : B → Action S A) (g : Nfsstat3 → Action S A)
      → ((b : B) → r ≡ ok b → Returns P (f b))
      → ((e : Nfsstat3) → Returns P (g e))
      → Returns P (on_result r f g)
  unfolding on_result
  on_result-Returns (ok b) f g succeeded failed = succeeded b refl
  on_result-Returns (err e) f g succeeded failed = failed e

  pub if-Returns :
      (b : Bool) (m n : Action S A)
      → (b ≡ true → Returns P m)
      → (b ≡ false → Returns P n)
      → Returns P (if b then m else n)
  if-Returns true m n first second = first refl
  if-Returns false m n first second = second refl

module _ {S A : Type 0} where
  pub pure-Total : (a : A) → Total (pure {S = S} a)
  unfolding pure
  pure-Total a = record { value = λ s. (a, refl) }

  pub bind-Total :
      {B : Type 0} (m : Action S B) (f : B → Action S A)
      → Total m
      → ((b : B) → Total (f b))
      → Total (m >>= f)
  unfolding ◌>>=◌
  bind-Total m f first rest = record {
    value = λ s. let (b, e) = first.value s in rw e ((rest b).value (m s).1);
  }

  pub on_result-Total :
      {B : Type 0} (r : Result B Nfsstat3) (f : B → Action S A) (g : Nfsstat3 → Action S A)
      → ((b : B) → Total (f b))
      → ((e : Nfsstat3) → Total (g e))
      → Total (on_result r f g)
  unfolding on_result
  on_result-Total (ok b) f g succeeded failed = succeeded b
  on_result-Total (err e) f g succeeded failed = failed e

  pub if-Total : (b : Bool) (m n : Action S A) → Total m → Total n → Total (if b then m else n)
  if-Total true m n first second = first
  if-Total false m n first second = second

-- Of a value that is returned nothing need be known.
pub anything-Returns : {S A : Type 0} (m : Action S A) → Returns (λ _. Unit {0}) m
anything-Returns m = record { holds = λ s a e. tt }
