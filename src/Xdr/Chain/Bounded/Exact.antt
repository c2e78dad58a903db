-- ===== src/Xdr/Chain/Bounded/Exact.antt =====
-- `BoundedList` of crates/nfs3_types/src/xdr_codec/list.rs: its size, against the size of its list.
use nfs.Prelude.{
  ℕ, ◌+◌, ◌≤◌, ◌<◌, ◌≡◌, refl, List, [], ◌∷◌, ◌++◌, Result, ok, err, ltb, Bool-cases, inl, inr,
  arith,
}
use nfs.Xdr.Codec.{Codec}
use nfs.Xdr.Chain.{list_size_loop, list_size}
use nfs.Xdr.Chain.Bounded.{BoundedList, new, try_push}

module _ {A : Type 0} (c : Codec A) where
  list_size_loop-snoc :
      (items : List A) (item : A) (len : ℕ)
      → list_size_loop c (items ++ (item ∷ [])) len
        ≡ list_size_loop c items len + (c.packed_size item + 4)
  unfolding list_size_loop
  list_size_loop-snoc [] item len = omega arith
  list_size_loop-snoc (x ∷ items) item len = list_size_loop-snoc items item _

  -- The size that is kept is the packed size of the list.
  abbrev pub IsExact : BoundedList A → Type 0
  IsExact b = b.current_size ≡ list_size c b.list

  -- What an attempt to add an item leaves, by its answer.
  abbrev pub Pushed : A → BoundedList A → Result (Unit {0}) A → BoundedList A → Type 0
  Pushed item b (ok done) b' =
      (b'.list ≡ b.list ++ (item ∷ [])) × (list_size c b'.list ≤ b.max_size)
  Pushed item b (err refused) b' =
      (refused ≡ item) × (b' ≡ b) × (b.max_size < list_size c (b.list ++ (item ∷ [])))

  list_size-snoc :
      (items : List A) (item : A)
      → list_size c (items ++ (item ∷ [])) ≡ list_size c items + (c.packed_size item + 4)
  unfolding list_size
  list_size-snoc items item = list_size_loop-snoc items item 0

  pub new-IsExact : (max_size : ℕ) → IsExact (new c max_size)
  unfolding new
  new-IsExact max_size = refl

  -- On a list whose size is known exactly, `try_push` adds an item exactly if the packed list with it
  -- keeps within the limit. Otherwise the item comes back and nothing changes. Either way the size
  -- stays exact.
  pub try_push-Pushed :
      (item : A) (b : BoundedList A)
      → IsExact b
      → Pushed item b (try_push c item b).0 (try_push c item b).1 × IsExact (try_push c item b).1
  unfolding try_push
  try_push-Pushed item b exact =
      elim (Bool-cases (ltb b.max_size (b.current_size + (c.packed_size item + 4)))) [
        | inl full ↦
            rw (full, try_push) ((refl, refl, ground (arith, list_size-snoc b.list item)), exact)
        | inr room ↦
            rw (room, try_push)
              (
                (refl, ground (arith, list_size-snoc b.list item)),
                omega (arith, list_size-snoc b.list item),
              )
      ]
