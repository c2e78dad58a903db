-- ===== src/Xdr/Counting/Derived.antt =====
-- Lists (xdr_codec/list.rs) and the implementations that `#[derive(XdrCodec)]` generates count the
-- bytes that they take, if the parts do. For lists it follows that the rounds of the loop suffice.
use mathlib.Core.Path.{subst}
use nfs.Prelude.{
  none, some, Option-cases, Result, ℕ, zero, suc, ◌+◌, ◌≡◌, List, ok, length, arith, >>=-eq-ok, inl,
  inr, Bool-cases,
}
use nfs.Xdr.Codec.{Error, Codec, Counts, Took, Took-none, Took-trans, Took-eq}
use nfs.Xdr.Primitives.{unpack_bool}
use nfs.Xdr.Chain.{unpack_list_loop, unpack_list}
use nfs.Xdr.Derive.{
  unpack_with, no_fields, complex_enum_codec, ◌&◌, Variants, simple_enum_codec, struct_codec,
  Fields,
}
use nfs.Xdr.Counting.{unpack_u32-Counts, unpack_u32, unpack_bool-Counts}

module _ {A : Type 0} (c : Codec A) (counts : Counts c.unpack) where
  unpack_list_loop-Took :
      (fuel k : ℕ) (before input : List ℕ) (xs : List A) (n : ℕ) (rest : List ℕ)
      → Took before input k
      → unpack_list_loop c fuel k input ≡ ok (xs, n, rest)
      → Took before rest n
  unfolding unpack_list_loop
  unpack_list_loop-Took zero k before input xs n rest took h = cc
  unpack_list_loop-Took (suc fuel) k before input xs n rest took h =
      let (t, p, q) = >>=-eq-ok (unpack_bool input) _ h in
      let took' = Took-trans took (unpack_bool-Counts input t.0 t.1 t.2 p) in
      elim (Bool-cases t.0) [
        | inl more ↦
            let q' = rw more at q in
            let (u, p', r) = >>=-eq-ok (c.unpack t.2) _ q' in
            let (v, p'', s) = >>=-eq-ok (unpack_list_loop c fuel (k + t.1 + u.1) u.2) _ r in
            Took-eq
              (unpack_list_loop-Took fuel (k + t.1 + u.1) before u.2 v.0 v.1 v.2
                (Took-trans took' (counts t.2 u.0 u.1 u.2 p')) p'')
              (ground arith) (ground arith)
        | inr done ↦ let q' = rw done at q in Took-eq took' (ground arith) (ground arith)
      ]

  pub unpack_list-Counts : Counts (unpack_list c)
  unfolding unpack_list
  unpack_list-Counts input a n rest h =
      unpack_list_loop-Took (length input) 0 input input a n rest (Took-none input) h

-- `Counts` for the fields of a struct, over the bytes that the running total counts.
abbrev pub CountsFields : {F : Type 0} → Fields F → Type 0
CountsFields {F} fs =
    (k : ℕ) (before input : List ℕ) (f : F) (n : ℕ) (rest : List ℕ)
    → Took before input k
    → fs.unpack_fields k input ≡ ok (f, n, rest)
    → Took before rest n

pub no_fields-Counts : CountsFields no_fields
no_fields-Counts k before input f n rest took h = Took-eq took (ground arith) (ground arith)

pub field-Counts :
    {A F : Type 0} (c : Codec A) (fs : Fields F)
    → Counts c.unpack
    → CountsFields fs
    → CountsFields (c & fs)
unfolding ◌&◌
field-Counts c fs counts counts' k before input f n rest took h =
    let (t, p, q) = >>=-eq-ok (c.unpack input) _ h in
    let (u, p', r) = >>=-eq-ok (fs.unpack_fields (k + t.1) t.2) _ q in
    Took-eq
      (counts' (k + t.1) before t.2 u.0 u.1 u.2 (Took-trans took (counts input t.0 t.1 t.2 p)) p')
      (ground arith) (ground arith)

pub struct-Counts :
    {S F : Type 0} (fs : Fields F) (fields_of : S → F) (construct : F → S)
    → CountsFields fs
    → Counts (struct_codec fs fields_of construct).unpack
unfolding struct_codec
struct-Counts fs fields_of construct counts input a n rest h =
    let (t, p, q) = >>=-eq-ok (fs.unpack_fields 0 input) _ h in
    Took-eq (counts 0 input input t.0 t.1 t.2 (Took-none input) p) (ground arith) (ground arith)

pub simple_enum-Counts :
    {A : Type 0} (discriminant : A → ℕ) (variants : List A)
    → Counts (simple_enum_codec discriminant variants).unpack
unfolding simple_enum_codec
simple_enum-Counts discriminant variants input a n rest h =
    let (t, p, q) = >>=-eq-ok (unpack_u32 input) _ h in
    Took-eq (unpack_u32-Counts input t.0 t.1 t.2 p) (ground arith) (ground arith)

-- Every variant that `match tag` can choose counts what it takes.
abbrev pub CountsVariants : {A : Type 0} → Variants A → Type 0
CountsVariants {A} vs =
    (tag : ℕ) (unpack : List ℕ → Result (A × ℕ × List ℕ) Error)
    → vs.unpack_variant tag ≡ some unpack
    → Counts unpack

pub complex_enum-Counts :
    {A : Type 0} (vs : Variants A) → CountsVariants vs → Counts (complex_enum_codec vs).unpack
unfolding complex_enum_codec
complex_enum-Counts vs counts input a n rest h =
    let (t, p, q) = >>=-eq-ok (unpack_u32 input) _ h in
    elim (Option-cases (vs.unpack_variant t.0)) [
      | inl no_variant ↦ absurd (ground (arith))
      | inr (unpack, at_tag) ↦
          let q' = rw at_tag at q in
          let (u, p', r) = >>=-eq-ok (unpack t.2) _ q' in
          Took-eq
            (Took-trans (unpack_u32-Counts input t.0 t.1 t.2 p)
              (counts t.0 unpack at_tag t.2 u.0 u.1 u.2 p'))
            (ground arith) (ground arith)
    ]

pub unpack_with-Counts :
    {A B : Type 0} (c : Codec B) (construct : B → A)
    → Counts c.unpack
    → Counts (unpack_with c construct)
unpack_with-Counts c construct counts input a n rest h =
    let (t, p, q) = >>=-eq-ok (c.unpack input) _ h in
    Took-eq (counts input t.0 t.1 t.2 p) (ground arith) (ground arith)

-- The choice of a variant, for `CountsVariants`.
pub chosen-Counts :
    {A : Type 0} {f g : List ℕ → Result (A × ℕ × List ℕ) Error}
    → some f ≡ some g
    → Counts f
    → Counts g
chosen-Counts e counts = subst Counts (cc) counts

pub none-Counts :
    {A : Type 0} {g : List ℕ → Result (A × ℕ × List ℕ) Error} → none ≡ some g → Counts g
none-Counts e = absurd (cc)
