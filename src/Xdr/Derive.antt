-- ===== src/Xdr/Derive.antt =====
-- What `#[derive(XdrCodec)]` generates (crates/nfs3_macros/src/lib.rs): one combinator for each
-- shape of type that the macro accepts.
use nfs.Prelude.{
  ℕ, ◌+◌, Option, none, some, List, [], ◌∷◌, Result, ok, err, ◌>>=◌, ◌==◌, if◌then◌else◌,
}
use nfs.Xdr.Codec.{Error, invalid_enum_value, Codec}
use nfs.Xdr.Primitives.{pack_u32, unpack_u32}

-- The statements that the generators write for the fields of a struct, each over the running total:
-- `packed_size_fields`, `pack_fields` and `unpack_fields`.
pub record Fields (F : Type 0) : Type 0 where
  pub packed_size_fields : F → ℕ → ℕ
  pub pack_fields : F → ℕ → List ℕ → Result (ℕ × List ℕ) Error
  pub unpack_fields : ℕ → List ℕ → Result (F × ℕ × List ℕ) Error

-- `Fields::Unit`, and the end of a list of fields.
abbrev pub no_fields : Fields Unit
no_fields = record {
  packed_size_fields = λ _ total_size. total_size;
  pack_fields = λ _ total_write out. ok (total_write, out);
  unpack_fields = λ total_read input. ok (tt, total_read, input);
}

-- A field before the others.
infixr 60 ◌&◌
unfoldable pub ◌&◌ : {A F : Type 0} → Codec A → Fields F → Fields (A × F)
c & fs = record {
  packed_size_fields = λ v total_size. fs.packed_size_fields v.1 (total_size + c.packed_size v.0);
  pack_fields = λ v total_write out. do
    (n, out') ← c.pack v.0 out
    fs.pack_fields v.1 (total_write + n) out';
  unpack_fields = λ total_read input. do
    (a, read_bytes, input') ← c.unpack input
    (f, total_read', rest) ← fs.unpack_fields (total_read + read_bytes) input'
    ok ((a, f), total_read', rest);
}

-- `generate_struct_impl`, with the struct's fields and its construction from them.
unfoldable pub struct_codec : {S F : Type 0} → Fields F → (S → F) → (F → S) → Codec S
struct_codec fs fields_of construct = record {
  packed_size = λ s. fs.packed_size_fields (fields_of s) 0;
  pack = λ s out. fs.pack_fields (fields_of s) 0 out;
  unpack = λ input. do
    (f, total_read, rest) ← fs.unpack_fields 0 input
    ok (construct f, total_read, rest);
}

-- The `match tag` of a simple enum: the first variant whose discriminant is the tag.
module _ {A : Type 0} (discriminant : A → ℕ) where
  unfoldable pub find_variant : List A → ℕ → Option A
  find_variant [] tag = none
  find_variant (v ∷ variants) tag =
      if tag == discriminant v then some v else find_variant variants tag

  -- `generate_simple_enum_impl`.
  unfoldable pub simple_enum_codec : List A → Codec A
  simple_enum_codec variants = record {
    packed_size = λ _. 4;
    pack = λ v out. pack_u32 (discriminant v) out;
    unpack = λ input. do
      (tag, bytes_read, rest) ← unpack_u32 input
      elim (find_variant variants tag) [
        | some v ↦ ok (v, bytes_read, rest)
        | none ↦ err (invalid_enum_value tag)
      ];
  }

-- The variants of an enum with data: the `#[xdr(value)]` of each, and how its value, if it has one,
-- is measured, packed and unpacked. `unpack_variant` is the `match tag`.
pub record Variants (A : Type 0) : Type 0 where
  pub xdr_value : A → ℕ
  pub value_size : A → ℕ
  pub pack_value : A → List ℕ → Result (ℕ × List ℕ) Error
  pub unpack_variant : ℕ → Option (List ℕ → Result (A × ℕ × List ℕ) Error)

-- A variant with no value, and a variant with one.
abbrev pub pack_unit : List ℕ → Result (ℕ × List ℕ) Error
pack_unit out = ok (0, out)

abbrev pub unpack_unit : {A : Type 0} → A → List ℕ → Result (A × ℕ × List ℕ) Error
unpack_unit a input = ok (a, 0, input)

abbrev pub unpack_with : {A B : Type 0} → Codec B → (B → A) → List ℕ → Result (A × ℕ × List ℕ) Error
unpack_with c construct input = do
  (val, val_bytes, rest) ← c.unpack input
  ok (construct val, val_bytes, rest)

-- `generate_complex_enum_impl`.
unfoldable pub complex_enum_codec : {A : Type 0} → Variants A → Codec A
complex_enum_codec vs = record {
  packed_size = λ a. 4 + vs.value_size a;
  pack = λ a out. do
    (len, out') ← pack_u32 (vs.xdr_value a) out
    (n, out'') ← vs.pack_value a out'
    ok (len + n, out'');
  unpack = λ input. do
    (tag, bytes_read, input') ← unpack_u32 input
    elim (vs.unpack_variant tag) [
      | none ↦ err (invalid_enum_value tag)
      | some unpack ↦ do
        (value, val_bytes, rest) ← unpack input'
        ok (value, bytes_read + val_bytes, rest)
    ];
}
