-- ===== src/Xdr/RoundTrip.antt =====
-- The contract `Lawful` for the codecs of xdr_codec/primitives.rs and xdr_codec/opaque.rs.
pub mod Vectors
pub mod Derived
use nfs.Prelude.{
  ◌∙◌, ℕ, ◌+◌, ◌^◌, ◌<◌, ◌≡◌, refl, ◌∙◌, Bool, true, false, List, [], ◌∷◌, ◌++◌, ok, length,
  length-append, append_assoc, append-nil, arith, if◌then◌else◌, ltb, Bool-cases, inl, inr,
}
use nfs.Xdr.Codec.{read_exact, read_exact-append, Lawful}
use nfs.Xdr.Util.{
  get_padding, zero_padding, add_padding-get_padding, add_padding-mod, length-zero_padding,
}
use nfs.Xdr.Primitives.{
  IsU32, IsU64, to_be_bytes, from_be_bytes, pack_u32, unpack_u32, u32_codec, to_be_bytes_u64,
  from_be_bytes_u64, pack_u64, unpack_u64, u64_codec, pack_bool, unpack_bool, bool_codec,
  pack_array, unpack_array, unpack_padding, array_codec, void_codec,
}
use nfs.Xdr.Opaque.{pack_opaque, unpack_opaque, opaque_codec}

pub from_be_bytes-to_be_bytes : (n : ℕ) → IsU32 n → from_be_bytes (to_be_bytes n) ≡ n
unfolding from_be_bytes to_be_bytes
from_be_bytes-to_be_bytes n h = omega arith

pub length-to_be_bytes : (n : ℕ) → length (to_be_bytes n) ≡ 4
unfolding to_be_bytes
length-to_be_bytes n = refl

pub unpack_u32-to_be_bytes :
    (n : ℕ) (rest : List ℕ) → IsU32 n → unpack_u32 (to_be_bytes n ++ rest) ≡ ok (n, 4, rest)
unfolding unpack_u32 read_exact to_be_bytes from_be_bytes
unpack_u32-to_be_bytes n rest h = ground arith

pub u32_codec-Lawful : Lawful u32_codec IsU32
unfolding pack_u32
u32_codec-Lawful = record {
  encode = to_be_bytes;
  pack_lem = λ n out h. refl;
  length_lem = λ n h. length-to_be_bytes n;
  aligned = λ n h. refl;
  unpack_lem = unpack_u32-to_be_bytes;
}

unpack_u64-to_be_bytes :
    (n : ℕ) (rest : List ℕ) → IsU64 n → unpack_u64 (to_be_bytes_u64 n ++ rest) ≡ ok (n, 8, rest)
unfolding unpack_u64 read_exact to_be_bytes_u64 from_be_bytes_u64 to_be_bytes from_be_bytes
unpack_u64-to_be_bytes n rest h = ground arith

pub u64_codec-Lawful : Lawful u64_codec IsU64
unfolding pack_u64 to_be_bytes_u64 to_be_bytes
u64_codec-Lawful = record {
  encode = to_be_bytes_u64;
  pack_lem = λ n out h. refl;
  length_lem = λ n h. refl;
  aligned = λ n h. refl;
  unpack_lem = unpack_u64-to_be_bytes;
}

abbrev of_bool : Bool → ℕ
of_bool b = if b then 1 else 0

unpack_bool-to_be_bytes :
    (b : Bool) (rest : List ℕ) → unpack_bool (to_be_bytes (of_bool b) ++ rest) ≡ ok (b, 4, rest)
unfolding unpack_bool
unpack_bool-to_be_bytes true rest = rw (unpack_u32-to_be_bytes 1 rest (omega arith))
unpack_bool-to_be_bytes false rest = rw (unpack_u32-to_be_bytes 0 rest (omega arith))

-- Every value of a type with `Anything` is valid.
abbrev pub Anything : {A : Type 0} → A → Type 0
Anything _ = Unit

pub bool_codec-Lawful : Lawful bool_codec Anything
unfolding pack_bool pack_u32
bool_codec-Lawful = record {
  encode = λ b. to_be_bytes (of_bool b);
  pack_lem = λ b out h. refl;
  length_lem = λ b h. length-to_be_bytes _;
  aligned = λ b h. refl;
  unpack_lem = λ b rest h. unpack_bool-to_be_bytes b rest;
}

pub void_codec-Lawful : Lawful void_codec Anything
void_codec-Lawful = record {
  encode = λ _. [];
  pack_lem = λ _ out h. rw append-nil;
  length_lem = λ _ h. refl;
  aligned = λ _ h. refl;
  unpack_lem = λ _ rest h. refl;
}

-- Reading bytes and then the padding that follows them.
read_padding :
    (bytes rest : List ℕ) (n : ℕ)
    → length bytes ≡ n
    → read_exact n ((bytes ++ zero_padding n) ++ rest) ≡ ok (bytes, zero_padding n ++ rest)
read_padding bytes rest n e = rw (append_assoc, ← e) (read_exact-append bytes _)

length-zero : (xs : List ℕ) → length xs ≡ 0 → xs ≡ []
length-zero [] h = refl
length-zero (x ∷ xs) h = absurd (omega arith)

-- The end of `unpack` of padded data, after `m` bytes.
unpack_pad :
    (n m : ℕ) (bytes rest : List ℕ)
    → unpack_padding bytes m (get_padding n) (zero_padding n ++ rest)
      ≡ ok (bytes, m + get_padding n, rest)
unfolding unpack_padding
unpack_pad n m bytes rest = elim (Bool-cases (ltb 0 (get_padding n))) [
  | inl more ↦ rw more (rw (read_pad n rest))
  | inr done ↦ rw done (rw (no_padding n done) (ground (arith)))
]
  where
    read_pad :
        (n : ℕ) (rest : List ℕ)
        → read_exact (get_padding n) (zero_padding n ++ rest) ≡ ok (zero_padding n, rest)
    read_pad n rest = rw (← length-zero_padding n) (read_exact-append (zero_padding n) rest)

    no_padding : (n : ℕ) → ltb 0 (get_padding n) ≡ false → zero_padding n ≡ []
    no_padding n done = length-zero (zero_padding n) (ground (arith, length-zero_padding n))

abbrev pub IsArray : ℕ → List ℕ → Type 0
IsArray n bytes = length bytes ≡ n

-- An array of a fixed size below 2^63 is packed into its bytes and padding, a whole number of
-- words, as many bytes as reported, and is read back from them.
pub array_codec-Lawful : (n : ℕ) → n < 2 ^ 63 → Lawful (array_codec n) (IsArray n)
unfolding pack_array unpack_array
array_codec-Lawful n fits = record {
  encode = λ bytes. bytes ++ zero_padding n;
  pack_lem = λ bytes out h. ground (
    arith,
    length-zero_padding n,
    add_padding-get_padding n,
    append_assoc out bytes (zero_padding n),
  );
  length_lem = λ bytes h. omega (
    arith,
    length-append {0} bytes (zero_padding n),
    length-zero_padding n,
    add_padding-get_padding n,
  );
  aligned = λ bytes h. add_padding-mod n;
  unpack_lem = λ bytes rest h.
      rw (read_padding bytes rest n h)
        (unpack_pad n n bytes rest ∙ rw (add_padding-get_padding n fits));
}

-- The length of opaque data fits its 32-bit prefix.
abbrev pub IsOpaque : List ℕ → Type 0
IsOpaque bytes = IsU32 (length bytes)

-- Opaque bytes whose length fits 32 bits are packed into their length, the bytes and padding, a
-- whole number of words, as many bytes as reported, and are read back from them.
pub opaque_codec-Lawful : Lawful opaque_codec IsOpaque
unfolding pack_opaque unpack_opaque pack_u32
opaque_codec-Lawful = record {
  encode = λ bytes. to_be_bytes (length bytes) ++ (bytes ++ zero_padding (length bytes));
  pack_lem = λ bytes out h.
      let b = to_be_bytes (length bytes) in
      let pad = zero_padding (length bytes) in
      ground (
        arith,
        length-zero_padding (length bytes),
        add_padding-get_padding (length bytes),
        append_assoc out b (bytes ++ pad),
        append_assoc (out ++ b) bytes pad,
      );
  length_lem = λ bytes h. omega (
    arith,
    length-append {0} bytes (zero_padding (length bytes)),
    length-zero_padding (length bytes),
    add_padding-get_padding (length bytes),
    length-to_be_bytes (length bytes),
    length-append {0} (to_be_bytes (length bytes)) (bytes ++ zero_padding (length bytes)),
  );
  aligned = λ bytes h. omega (arith, add_padding-mod (length bytes));
  unpack_lem = λ bytes rest h.
      let n = length bytes in
      let pad = zero_padding n in
      rw (append_assoc (to_be_bytes n) (bytes ++ pad) rest) (
        rw (unpack_u32-to_be_bytes n ((bytes ++ pad) ++ rest) h, read_padding bytes rest n refl)
          (unpack_pad n (4 + n) bytes rest ∙ ground (arith, add_padding-get_padding n)));
}
