-- ===== src/Xdr/RoundTrip/Derived.antt =====
-- The contract `Lawful` for the implementations that `#[derive(XdrCodec)]` generates, if those of
-- the parts do.
use nfs.Prelude.{
  ℕ, ◌+◌, ◌%◌, ◌≡◌, refl, ◌∙◌, some, List, [], ◌++◌, Result, ok, length, length-append,
  append_assoc, append-nil, arith,
}
use nfs.Xdr.Codec.{Error, Codec, Lawful}
use nfs.Xdr.Primitives.{IsU32, to_be_bytes, pack_u32}
use nfs.Xdr.Derive.{
  unpack_with, unpack_unit, pack_unit, Fields, no_fields, ◌&◌, struct_codec, find_variant,
  simple_enum_codec, Variants, complex_enum_codec,
}
use nfs.Xdr.RoundTrip.{unpack_u32-to_be_bytes, length-to_be_bytes, Anything}

-- `Lawful` for the fields of a struct, over any running total.
pub record LawfulFields {F : Type 0} (fs : Fields F) (Valid : F → Type 0) : Type 0 where
  pub size : F → ℕ
  pub encode : F → List ℕ
  pub size_lem : (f : F) (n : ℕ) → fs.packed_size_fields f n ≡ n + size f
  pub pack_lem :
      (f : F) (n : ℕ) (out : List ℕ)
      → Valid f
      → fs.pack_fields f n out ≡ ok (n + size f, out ++ encode f)
  pub length_lem : (f : F) → Valid f → length (encode f) ≡ size f
  pub aligned : (f : F) → Valid f → size f % 4 ≡ 0
  pub unpack_lem :
      (f : F) (n : ℕ) (rest : List ℕ)
      → Valid f
      → fs.unpack_fields n (encode f ++ rest) ≡ ok (f, n + size f, rest)

pub no_fields-Lawful : LawfulFields no_fields Anything
no_fields-Lawful = record {
  size = λ _. 0;
  encode = λ _. [];
  size_lem = λ _ n. omega arith;
  pack_lem = λ _ n out h. ground (arith, append-nil out);
  length_lem = λ _ h. refl;
  aligned = λ _ h. refl;
  unpack_lem = λ _ n rest h. ground arith;
}

-- A field and the others are valid together.
abbrev pub Both : {A F : Type 0} → (A → Type 0) → (F → Type 0) → A × F → Type 0
Both Va Vf v = Va v.0 × Vf v.1

module _ {A F : Type 0} (c : Codec A) (fs : Fields F) (Va : A → Type 0) (Vf : F → Type 0) where
  pub field-Lawful : Lawful c Va → LawfulFields fs Vf → LawfulFields (c & fs) (Both Va Vf)
  unfolding ◌&◌
  field-Lawful la lf = record {
    size = λ v. c.packed_size v.0 + lf.size v.1;
    encode = λ v. la.encode v.0 ++ lf.encode v.1;
    size_lem = λ v n. omega (arith, lf.size_lem v.1 (n + c.packed_size v.0));
    pack_lem = λ v n out h. rw (la.pack_lem v.0 out h.0) (
        rw (lf.pack_lem v.1 (n + c.packed_size v.0) (out ++ la.encode v.0) h.1)
          (ground (arith, append_assoc out (la.encode v.0) (lf.encode v.1))));
    length_lem = λ v h. omega (
      arith,
      la.length_lem v.0 h.0,
      lf.length_lem v.1 h.1,
      length-append {0} (la.encode v.0) (lf.encode v.1),
    );
    aligned = λ v h. omega (arith, la.aligned v.0 h.0, lf.aligned v.1 h.1);
    unpack_lem = λ v n rest h. rw (append_assoc (la.encode v.0) (lf.encode v.1) rest) (
        rw (la.unpack_lem v.0 (lf.encode v.1 ++ rest) h.0)
          (rw (lf.unpack_lem v.1 (n + c.packed_size v.0) rest h.1) (ground arith)));
  }

module _ {S F : Type 0} (fs : Fields F) (V : F → Type 0) (fields_of : S → F)
    (construct : F → S) where
  -- The implementation generated for a struct keeps the contract `Lawful` if those of its fields
  -- do, where the construction undoes the taking of the fields.
  pub struct_codec-Lawful :
      LawfulFields fs V
      → ((s : S) → construct (fields_of s) ≡ s)
      → Lawful (struct_codec fs fields_of construct) (λ s. V (fields_of s))
  unfolding struct_codec
  struct_codec-Lawful lf inv = record {
    encode = λ s. lf.encode (fields_of s);
    pack_lem =
        λ s out h. lf.pack_lem (fields_of s) 0 out h ∙ ground (arith, lf.size_lem (fields_of s) 0);
    length_lem = λ s h. lf.length_lem (fields_of s) h ∙ omega (arith, lf.size_lem (fields_of s) 0);
    aligned = λ s h. omega (arith, lf.size_lem (fields_of s) 0, lf.aligned (fields_of s) h);
    unpack_lem = λ s rest h.
        rw (lf.unpack_lem (fields_of s) 0 rest h)
          (ground (arith, lf.size_lem (fields_of s) 0, inv s));
  }

module _ {A : Type 0} (discriminant : A → ℕ) (variants : List A) where
  -- The implementation generated for an enum with no data keeps the contract `Lawful`, if each
  -- discriminant is a word and the first variant with it is the variant itself.
  pub simple_enum_codec-Lawful :
      ((a : A)
        → IsU32 (discriminant a) × (find_variant discriminant variants (discriminant a) ≡ some a))
      → Lawful (simple_enum_codec discriminant variants) Anything
  unfolding simple_enum_codec pack_u32
  simple_enum_codec-Lawful found = record {
    encode = λ a. to_be_bytes (discriminant a);
    pack_lem = λ a out h. refl;
    length_lem = λ a h. length-to_be_bytes (discriminant a);
    aligned = λ a h. refl;
    unpack_lem = λ a rest h.
        rw (unpack_u32-to_be_bytes (discriminant a) rest (found a).0) (ground (arith, (found a).1));
  }

-- What is asked of the variants of an enum with data.
pub record LawfulVariants {A : Type 0} (vs : Variants A) (Valid : A → Type 0) : Type 0 where
  pub encode : A → List ℕ
  pub in_range : (a : A) → IsU32 (vs.xdr_value a)
  pub pack_lem :
      (a : A) (out : List ℕ) → Valid a → vs.pack_value a out ≡ ok (vs.value_size a, out ++ encode a)
  pub length_lem : (a : A) → Valid a → length (encode a) ≡ vs.value_size a
  pub aligned : (a : A) → Valid a → vs.value_size a % 4 ≡ 0
  pub unpack_lem :
      (a : A)
      → Valid a
      → (unpack : List ℕ → Result (A × ℕ × List ℕ) Error) × (vs.unpack_variant (vs.xdr_value a)
          ≡ some unpack)
        × ((rest : List ℕ) → unpack (encode a ++ rest) ≡ ok (a, vs.value_size a, rest))

module _ {A : Type 0} (vs : Variants A) (Valid : A → Type 0) where
  -- The implementation generated for an enum with data keeps the contract `Lawful` on valid values, if
  -- the tag of every value fits a word, and for every valid value the value behind the tag is packed
  -- into as many bytes as reported, a whole number of words, and the branch for its tag reads it back
  -- from them.
  pub complex_enum_codec-Lawful : LawfulVariants vs Valid → Lawful (complex_enum_codec vs) Valid
  unfolding complex_enum_codec pack_u32
  complex_enum_codec-Lawful lv = record {
    encode = λ a. to_be_bytes (vs.xdr_value a) ++ lv.encode a;
    pack_lem = λ a out h.
        rw (lv.pack_lem a (out ++ to_be_bytes (vs.xdr_value a)) h)
          (ground (arith, append_assoc out (to_be_bytes (vs.xdr_value a)) (lv.encode a)));
    length_lem = λ a h. omega (
      arith,
      lv.length_lem a h,
      length-to_be_bytes (vs.xdr_value a),
      length-append {0} (to_be_bytes (vs.xdr_value a)) (lv.encode a),
    );
    aligned = λ a h. omega (arith, lv.aligned a h);
    unpack_lem = λ a rest h.
        let (unpack, at_tag, reads) = lv.unpack_lem a h in
        rw (append_assoc (to_be_bytes (vs.xdr_value a)) (lv.encode a) rest) (
          rw (unpack_u32-to_be_bytes (vs.xdr_value a) (lv.encode a ++ rest) (lv.in_range a))
            (rw at_tag (rw (reads rest))));
  }

-- A contract on fewer values.
pub lawful_on :
    {A : Type 0} (c : Codec A) (V W : A → Type 0) → Lawful c V → ((a : A) → W a → V a) → Lawful c W
lawful_on c V W law narrow = record {
  encode = law.encode;
  pack_lem = λ a out h. law.pack_lem a out (narrow a h);
  length_lem = λ a h. law.length_lem a (narrow a h);
  aligned = λ a h. law.aligned a (narrow a h);
  unpack_lem = λ a rest h. law.unpack_lem a rest (narrow a h);
}

-- `LawfulVariants` at one value.
pub record LawfulVariant {A : Type 0} (vs : Variants A) (a : A) (IsValid : Type 0) : Type 0 where
  pub encode : List ℕ
  pub in_range : IsU32 (vs.xdr_value a)
  pub pack_lem :
      (out : List ℕ) → IsValid → vs.pack_value a out ≡ ok (vs.value_size a, out ++ encode)
  pub length_lem : IsValid → length encode ≡ vs.value_size a
  pub aligned : IsValid → vs.value_size a % 4 ≡ 0
  pub unpack : List ℕ → Result (A × ℕ × List ℕ) Error
  pub at_tag : IsValid → vs.unpack_variant (vs.xdr_value a) ≡ some unpack
  pub unpack_lem :
      (rest : List ℕ) → IsValid → unpack (encode ++ rest) ≡ ok (a, vs.value_size a, rest)

pub by_variant :
    {A : Type 0} (vs : Variants A) (Valid : A → Type 0)
    → ((a : A) → LawfulVariant vs a (Valid a))
    → LawfulVariants vs Valid
by_variant vs Valid part = record {
  encode = λ a. (part a).encode;
  in_range = λ a. (part a).in_range;
  pack_lem = λ a out h. (part a).pack_lem out h;
  length_lem = λ a h. (part a).length_lem h;
  aligned = λ a h. (part a).aligned h;
  unpack_lem = λ a h. ((part a).unpack, (part a).at_tag h, λ rest. (part a).unpack_lem rest h);
}

-- A variant whose value has a codec that keeps the contract.
pub value-Lawful :
    {A B : Type 0} (vs : Variants A) (c : Codec B) (V : B → Type 0) (construct : B → A) (b : B)
    → Lawful c V
    → IsU32 (vs.xdr_value (construct b))
    → vs.value_size (construct b) ≡ c.packed_size b
    → ((out : List ℕ) → vs.pack_value (construct b) out ≡ c.pack b out)
    → vs.unpack_variant (vs.xdr_value (construct b)) ≡ some (unpack_with c construct)
    → LawfulVariant vs (construct b) (V b)
value-Lawful vs c V construct b law range size pack at_tag = record {
  encode = law.encode b;
  in_range = range;
  pack_lem = λ out h. pack out ∙ rw size (law.pack_lem b out h);
  length_lem = λ h. rw size (law.length_lem b h);
  aligned = λ h. rw size (law.aligned b h);
  unpack = unpack_with c construct;
  at_tag = λ h. at_tag;
  unpack_lem = λ rest h. rw size (rw (law.unpack_lem b rest h));
}

-- A variant with no value.
pub unit-Lawful :
    {A : Type 0} (vs : Variants A) (a : A)
    → IsU32 (vs.xdr_value a)
    → vs.value_size a ≡ 0
    → ((out : List ℕ) → vs.pack_value a out ≡ pack_unit out)
    → vs.unpack_variant (vs.xdr_value a) ≡ some (unpack_unit a)
    → LawfulVariant vs a Unit
unit-Lawful vs a range size pack at_tag = record {
  encode = [];
  in_range = range;
  pack_lem = λ out h. pack out ∙ ground (arith, size, append-nil out);
  length_lem = λ h. ground (arith, size);
  aligned = λ h. ground (arith, size);
  unpack = unpack_unit a;
  at_tag = λ h. at_tag;
  unpack_lem = λ rest h. ground (arith, size);
}
