-- ===== src/Xdr/Codec.antt =====
-- The traits `Pack` and `Unpack` (xdr_codec/traits.rs), their error type (xdr_codec/error.rs), and
-- what a lawful pair of implementations promises.
-- A writer is the in-memory buffer that every caller passes (`Vec<u8>`, `Cursor<Vec<u8>>`), so a
-- write itself does not fail; a reader is the list of bytes that are left.
use nfs.Prelude.{
  length-append, append_assoc, sym, ap, ◌∙◌, ◌+◌, arith, ℕ, ◌%◌, ◌≡◌, List, [], ◌∷◌, ◌++◌, Result,
  ok, err, ◌>>=◌, length, zero, suc, refl, >>=-eq-ok,
}

pub data Error : Type 0 where
  io : Error
  invalid_enum_value : ℕ → Error
  invalid_length : ℕ → Error
  object_too_large : ℕ → Error

-- `Read::read_exact`: the next `n` bytes and what follows them.
unfoldable pub read_exact : ℕ → List ℕ → Result (List ℕ × List ℕ) Error
read_exact zero input = ok ([], input)
read_exact (suc n) [] = err io
read_exact (suc n) (b ∷ input) = do (bytes, rest) ← read_exact n input; ok (b ∷ bytes, rest)

-- `Write::write_all`.
abbrev pub write_all : List ℕ → List ℕ → List ℕ
write_all bytes out = out ++ bytes

-- An implementation of both traits. `pack` returns the count and the longer buffer, `unpack` the
-- value, the count and the bytes that are left.
pub record Codec (A : Type 0) : Type 0 where
  pub packed_size : A → ℕ
  pub pack : A → List ℕ → Result (ℕ × List ℕ) Error
  pub unpack : List ℕ → Result (A × ℕ × List ℕ) Error

-- The contract, on the values that `Valid` describes.
pub record Lawful {A : Type 0} (c : Codec A) (Valid : A → Type 0) : Type 0 where
  pub encode : A → List ℕ
  pub pack_lem :
      (a : A) (out : List ℕ) → Valid a → c.pack a out ≡ ok (c.packed_size a, out ++ encode a)
  pub length_lem : (a : A) → Valid a → length (encode a) ≡ c.packed_size a
  pub aligned : (a : A) → Valid a → c.packed_size a % 4 ≡ 0
  pub unpack_lem :
      (a : A) (rest : List ℕ)
      → Valid a
      → c.unpack (encode a ++ rest) ≡ ok (a, c.packed_size a, rest)

-- What was read: `n` bytes in front of `rest`.
pub record Took (input rest : List ℕ) (n : ℕ) : Type 0 where
  pub bytes : List ℕ
  pub split : input ≡ bytes ++ rest
  pub count : length bytes ≡ n

-- A reader of values counts the bytes that it takes.
abbrev pub Counts : {A : Type 0} → (List ℕ → Result (A × ℕ × List ℕ) Error) → Type 0
Counts {A} unpack =
    (input : List ℕ) (a : A) (n : ℕ) (rest : List ℕ)
    → unpack input ≡ ok (a, n, rest)
    → Took input rest n

pub Took-none : (input : List ℕ) → Took input input 0
Took-none input = record { bytes = []; split = refl; count = refl }

pub Took-trans :
    {input mid rest : List ℕ} {n m : ℕ}
    → Took input mid n
    → Took mid rest m
    → Took input rest (n + m)
Took-trans {rest = rest} p q = record {
  bytes = p.bytes ++ q.bytes;
  split = p.split ∙ ap (λ l. p.bytes ++ l) q.split ∙ sym (append_assoc p.bytes q.bytes rest);
  count = omega (arith, length-append {0} p.bytes q.bytes, p.count, q.count);
}

pub Took-eq :
    {input rest rest' : List ℕ} {n n' : ℕ}
    → Took input rest n
    → rest ≡ rest'
    → n ≡ n'
    → Took input rest' n'
Took-eq p e f = record {
  bytes = p.bytes;
  split = p.split ∙ ap (λ l. p.bytes ++ l) e;
  count = p.count ∙ f;
}

pub read_exact-append : (xs rest : List ℕ) → read_exact (length xs) (xs ++ rest) ≡ ok (xs, rest)
unfolding read_exact
read_exact-append [] rest = refl
read_exact-append (x ∷ xs) rest = rw (read_exact-append xs rest)

pub read_exact-takes :
    (n : ℕ) (input : List ℕ) (xs rest : List ℕ)
    → read_exact n input ≡ ok (xs, rest)
    → (input ≡ xs ++ rest) × (length xs ≡ n)
unfolding read_exact
read_exact-takes zero input xs rest h = ground arith
read_exact-takes (suc n) [] xs rest h = cc
read_exact-takes (suc n) (b ∷ input) xs rest h =
    let (t, p, q) = >>=-eq-ok (read_exact n input) _ h in
    ground (arith, read_exact-takes n input t.0 t.1 p)

pub read_exact-Took :
    (n : ℕ) (input : List ℕ) (xs rest : List ℕ)
    → read_exact n input ≡ ok (xs, rest)
    → Took input rest n
read_exact-Took n input xs rest h =
    let (e, l) = read_exact-takes n input xs rest h in record { bytes = xs; split = e; count = l }
