-- ===== src/Xdr/Chain/Bounded/Fits.antt =====
-- A `BoundedList` of crates/nfs3_types/src/xdr_codec/list.rs that was filled from a new one: its size
-- against its limit, and the room that is left.
use nfs.Prelude.{
  ℕ, ◌+◌, ◌-◌, ◌≤◌, ◌<◌, ◌≡◌, refl, sym, ◌∙◌, [], Result, ok, err, ltb, Bool-cases, ◌⊎◌, inl, inr,
  arith,
}
use mathlib.Core.Path.{subst}
use nfs.Xdr.Codec.{Codec}
use nfs.Xdr.Chain.{list_size}
use nfs.Xdr.Chain.Bounded.{BoundedList, new, try_push}
use nfs.Xdr.Chain.Bounded.Exact.{IsExact, Pushed, new-IsExact, try_push-Pushed}

module _ {A : Type 0} (c : Codec A) (limit : ℕ) where
  -- The size is exact, and a list that is not empty keeps within the limit.
  abbrev pub Fits : BoundedList A → Type 0
  Fits b = IsExact c b × (b.max_size ≡ limit) × ((b.list ≡ []) ⊎ (list_size c b.list ≤ limit))

  pub new-Fits : Fits (new c limit)
  unfolding new
  new-Fits = (new-IsExact c limit, refl, inl refl)

  Pushed-Fits :
      (item : A) (b : BoundedList A) (r : Result (Unit {0}) A) (b' : BoundedList A)
      → Fits b
      → Pushed c item b r b'
      → IsExact c b'
      → b'.max_size ≡ b.max_size
      → Fits b'
  Pushed-Fits item b (ok done) b' f (_, within) exact same =
      (exact, same ∙ f.1, inr (omega (arith, f.1, within)))
  Pushed-Fits item b (err refused) b' f (_, unchanged, _) exact same = subst Fits (sym unchanged) f

  try_push-max_size : (item : A) (b : BoundedList A) → (try_push c item b).1.max_size ≡ b.max_size
  unfolding try_push
  try_push-max_size item b =
      elim (Bool-cases (ltb b.max_size (b.current_size + (c.packed_size item + 4)))) [
        | inl full ↦ rw (full, try_push) refl
        | inr free ↦ rw (free, try_push) refl
      ]

  pub try_push-Fits : (item : A) (b : BoundedList A) → Fits b → Fits (try_push c item b).1
  try_push-Fits item b f =
      let (pushed, exact) = try_push-Pushed c item b f.0 in
      Pushed-Fits item b _ _ f pushed exact (try_push-max_size item b)

  abbrev pub room : BoundedList A → ℕ
  room b = b.max_size - b.current_size

  pub try_push-room :
      (item : A) (b : BoundedList A)
      → Fits b
      → (try_push c item b).0 ≡ ok tt
      → room (try_push c item b).1 < room b
  unfolding try_push
  try_push-room item b f added =
      elim (Bool-cases (ltb b.max_size (b.current_size + (c.packed_size item + 4)))) [
        | inl full ↦ let added' = rw (full, try_push) at added in absurd (cc)
        | inr free ↦ rw (free, try_push) (ground arith)
      ]
