-- ===== src/Xdr/Chain/Bounded.antt =====
-- `BoundedList<T>` of crates/nfs3_types/src/xdr_codec/list.rs: a list that grows while its packed
-- size keeps within a limit.
pub mod Exact
pub mod Fits
use nfs.Prelude.{ℕ, ◌+◌, List, [], ◌∷◌, ◌++◌, Result, ok, err, ltb, if◌then◌else◌}
use nfs.Xdr.Codec.{Codec}
use nfs.Xdr.Chain.{list_size}

pub record BoundedList (A : Type 0) : Type 0 where
  pub list : List A
  pub current_size : ℕ
  pub max_size : ℕ

module _ {A : Type 0} (c : Codec A) where
  unfoldable pub new : ℕ → BoundedList A
  new max_size = record { list = []; current_size = list_size c []; max_size = max_size }

  -- The item comes back when there is no room for it.
  unfoldable pub try_push : A → BoundedList A → Result (Unit {0}) A × BoundedList A
  try_push item b =
      let item_size = c.packed_size item + 4 in
      if ltb b.max_size (b.current_size + item_size) then (err item, b) else (
        ok tt,
        record b { list = b.list ++ (item ∷ []); current_size = b.current_size + item_size },
      )
