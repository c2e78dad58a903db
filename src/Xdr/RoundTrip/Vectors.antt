-- ===== src/Xdr/RoundTrip/Vectors.antt =====
-- The contract `Lawful` for `Vec<u32>` (xdr_codec/primitives.rs) and `List<T>` (xdr_codec/list.rs).
use nfs.Prelude.{
  ℕ, zero, suc, ◌+◌, ◌*◌, ◌%◌, ◌<◌, ◌≡◌, refl, ◌∙◌, true, false, List, [], ◌∷◌, ◌++◌, ok, length,
  length-append, append_assoc, append-nil, arith, All,
}
use nfs.Xdr.Codec.{Codec, Lawful}
use nfs.Xdr.Primitives.{
  IsU32, to_be_bytes, pack_u32, pack_items, unpack_items, pack_vec_u32, unpack_vec_u32,
  vec_u32_codec,
}
use nfs.Xdr.Chain.{
  list_size_loop, list_size, pack_list_loop, pack_list, unpack_list_loop, unpack_list, list_codec,
}
use nfs.Xdr.RoundTrip.{unpack_u32-to_be_bytes, length-to_be_bytes, bool_codec-Lawful}

abbrev encode_items : List ℕ → List ℕ
encode_items [] = []
encode_items (x ∷ xs) = to_be_bytes x ++ encode_items xs

length-encode_items : (xs : List ℕ) → length (encode_items xs) ≡ length xs * 4
length-encode_items [] = refl
length-encode_items (x ∷ xs) = omega (
  arith,
  length-encode_items xs,
  length-append {0} (to_be_bytes x) (encode_items xs),
  length-to_be_bytes x,
)

pack_items-eq-encode :
    (xs : List ℕ) (n : ℕ) (out : List ℕ)
    → pack_items xs n out ≡ ok (n + length xs * 4, out ++ encode_items xs)
unfolding pack_items pack_u32
pack_items-eq-encode [] n out = ground (arith, append-nil out)
pack_items-eq-encode (x ∷ xs) n out = ground (
  arith,
  pack_items-eq-encode xs (n + 4) (out ++ to_be_bytes x),
  append_assoc out (to_be_bytes x) (encode_items xs),
)

unpack_items-encode :
    (xs : List ℕ) (n : ℕ) (rest : List ℕ)
    → All IsU32 xs
    → unpack_items (length xs) n (encode_items xs ++ rest) ≡ ok (xs, n + length xs * 4, rest)
unfolding unpack_items
unpack_items-encode [] n rest h = ground arith
unpack_items-encode (x ∷ xs) n rest (hx, hxs) =
    rw (append_assoc (to_be_bytes x) (encode_items xs) rest) (
      rw (unpack_u32-to_be_bytes x (encode_items xs ++ rest) hx)
        (rw (unpack_items-encode xs (n + 4) rest hxs) (ground arith)))

-- The number of items fits its prefix, and each item its word.
abbrev pub IsVector : List ℕ → Type 0
IsVector xs = IsU32 (length xs) × All IsU32 xs

-- A vector of words, its length a word too, is packed into as many bytes as reported and is read
-- back from them.
pub vec_u32_codec-Lawful : Lawful vec_u32_codec IsVector
unfolding pack_vec_u32 unpack_vec_u32 pack_u32
vec_u32_codec-Lawful = record {
  encode = λ xs. to_be_bytes (length xs) ++ encode_items xs;
  pack_lem = λ xs out h. ground (
    arith,
    h.0,
    pack_items-eq-encode xs 4 (out ++ to_be_bytes (length xs)),
    append_assoc out (to_be_bytes (length xs)) (encode_items xs),
  );
  length_lem = λ xs h. omega (
    arith,
    length-encode_items xs,
    length-to_be_bytes (length xs),
    length-append {0} (to_be_bytes (length xs)) (encode_items xs),
  );
  aligned = λ xs h. omega arith;
  unpack_lem = λ xs rest h. rw (append_assoc (to_be_bytes (length xs)) (encode_items xs) rest) (
      rw (unpack_u32-to_be_bytes (length xs) (encode_items xs ++ rest) h.0)
        (unpack_items-encode xs 4 rest h.1));
}

module _ {A : Type 0} (c : Codec A) (Valid : A → Type 0) (law : Lawful c Valid) where
  encode_list : List A → List ℕ
  encode_list [] = bool_codec-Lawful.encode false
  encode_list (x ∷ xs) = bool_codec-Lawful.encode true ++ (law.encode x ++ encode_list xs)

  -- What the items of a list take, with the flag before each and the flag at the end.
  pub total_size : List A → ℕ
  total_size [] = 4
  total_size (x ∷ xs) = 4 + c.packed_size x + total_size xs

  list_size_loop-eq-total : (xs : List A) (n : ℕ) → list_size_loop c xs n ≡ n + total_size xs
  unfolding list_size_loop total_size
  list_size_loop-eq-total [] n = refl
  list_size_loop-eq-total (x ∷ xs) n =
      omega (arith, list_size_loop-eq-total xs (n + 4 + c.packed_size x))

  pub list_size-eq-total : (xs : List A) → list_size c xs ≡ total_size xs
  unfolding list_size
  list_size-eq-total xs = omega (arith, list_size_loop-eq-total xs 0)

  length-encode_list : (xs : List A) → All Valid xs → length (encode_list xs) ≡ total_size xs
  unfolding total_size encode_list
  length-encode_list [] h = bool_codec-Lawful.length_lem false tt
  length-encode_list (x ∷ xs) (hx, hxs) = omega (
    arith,
    length-encode_list xs hxs,
    law.length_lem x hx,
    bool_codec-Lawful.length_lem true tt,
    length-append {0} (bool_codec-Lawful.encode true) (law.encode x ++ encode_list xs),
    length-append {0} (law.encode x) (encode_list xs),
  )

  total_size-mod : (xs : List A) → All Valid xs → total_size xs % 4 ≡ 0
  unfolding total_size
  total_size-mod [] h = refl
  total_size-mod (x ∷ xs) (hx, hxs) = omega (arith, total_size-mod xs hxs, law.aligned x hx)

  pack_list_loop-eq-encode :
      (xs : List A) (n : ℕ) (out : List ℕ)
      → All Valid xs
      → pack_list_loop c xs n out ≡ ok (n + total_size xs, out ++ encode_list xs)
  unfolding pack_list_loop total_size encode_list
  pack_list_loop-eq-encode [] n out h = rw (bool_codec-Lawful.pack_lem false out tt)
  pack_list_loop-eq-encode (x ∷ xs) n out (hx, hxs) =
      let flag = bool_codec-Lawful.encode true in
      rw (bool_codec-Lawful.pack_lem true out tt, law.pack_lem x (out ++ flag) hx)
        (rw
          (pack_list_loop-eq-encode xs (n + 4 + c.packed_size x) ((out ++ flag) ++ law.encode x)
            hxs)
          (ground (
            arith,
            append_assoc (out ++ flag) (law.encode x) (encode_list xs),
            append_assoc out flag (law.encode x ++ encode_list xs),
          )))

  unpack_list_loop-encode :
      (xs : List A) (fuel n : ℕ) (rest : List ℕ)
      → All Valid xs
      → length xs < fuel
      → unpack_list_loop c fuel n (encode_list xs ++ rest) ≡ ok (xs, n + total_size xs, rest)
  unfolding unpack_list_loop total_size encode_list
  unpack_list_loop-encode xs zero n rest h hf = absurd (omega arith)
  unpack_list_loop-encode [] (suc fuel) n rest h hf =
      rw (bool_codec-Lawful.unpack_lem false rest tt)
  unpack_list_loop-encode (x ∷ xs) (suc fuel) n rest (hx, hxs) hf =
      rw (append_assoc (bool_codec-Lawful.encode true) (law.encode x ++ encode_list xs) rest) (
        rw (bool_codec-Lawful.unpack_lem true ((law.encode x ++ encode_list xs) ++ rest) tt) (
          rw (append_assoc (law.encode x) (encode_list xs) rest) (
            rw (law.unpack_lem x (encode_list xs ++ rest) hx) (
              rw (unpack_list_loop-encode xs fuel (n + 4 + c.packed_size x) rest hxs (omega arith))
                (ground arith)))))

  length-lt-total : (xs : List A) → length xs < total_size xs
  unfolding total_size
  length-lt-total [] = omega arith
  length-lt-total (x ∷ xs) = omega (arith, length-lt-total xs)

  -- If the codec of the items keeps the contract `Lawful`, then the codec of lists does, on lists
  -- of valid items of any length.
  pub list_codec-Lawful : Lawful (list_codec c) (All Valid)
  unfolding pack_list unpack_list
  list_codec-Lawful = record {
    encode = encode_list;
    pack_lem =
        λ xs out h. rw (list_size-eq-total xs) (pack_list_loop-eq-encode xs 0 out h ∙ ground arith);
    length_lem = λ xs h. length-encode_list xs h ∙ ground (arith, list_size-eq-total xs);
    aligned = λ xs h. rw (list_size-eq-total xs) (total_size-mod xs h);
    unpack_lem = λ xs rest h. rw (list_size-eq-total xs) (
        unpack_list_loop-encode xs _ 0 rest h (
          omega (
            arith,
            length-lt-total xs,
            length-encode_list xs h,
            length-append {0} (encode_list xs) rest,
          ))
        ∙ ground arith);
  }
