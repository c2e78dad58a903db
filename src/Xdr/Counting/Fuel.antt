-- ===== src/Xdr/Counting/Fuel.antt =====
-- The loop of `List::unpack` (xdr_codec/list.rs) as a relation, with no bound on its rounds, between what
-- is left to read and what the loop returns; how the loop with its rounds counted compares to it.
use nfs.Prelude.{
  ℕ, zero, suc, ◌+◌, ◌≤◌, ◌≡◌, refl, ◌∙◌, ap, Bool, true, false, List, [], ◌∷◌, Result, ok, err,
  length, length-append, arith, >>=-eq-ok, inl, inr, ◌⊎◌, sym, ◌>>=◌,
}
use mathlib.Core.Path.{subst}
use nfs.Xdr.Codec.{io, Error, Codec, Counts, Took, read_exact}
use nfs.Xdr.Primitives.{unpack_u32, unpack_bool}
use nfs.Xdr.Chain.{unpack_list_loop, unpack_list}
use nfs.Xdr.Counting.{unpack_bool-Counts}

-- To split on a result and keep the equation.
Result-cases {ℓ} :
    {A : Type ℓ} {E : Type 0} (r : Result A E) → ((a : A) × (r ≡ ok a)) ⊎ ((e : E) × (r ≡ err e))
Result-cases (ok a) = inl (a, refl)
Result-cases (err e) = inr (e, refl)

length-Took : {input rest : List ℕ} {n : ℕ} → Took input rest n → length input ≡ n + length rest
length-Took {rest = rest} t =
    ap length t.split ∙ omega (arith, length-append {0} t.bytes rest, t.count)

unpack_u32-takes_four :
    (input : List ℕ) (a n : ℕ) (rest : List ℕ) → unpack_u32 input ≡ ok (a, n, rest) → n ≡ 4
unfolding unpack_u32
unpack_u32-takes_four input a n rest h =
    let (u, p, q) = >>=-eq-ok (read_exact 4 input) _ h in ground arith

unpack_bool-takes_four :
    (input : List ℕ) (b : Bool) (n : ℕ) (rest : List ℕ)
    → unpack_bool input ≡ ok (b, n, rest)
    → n ≡ 4
unfolding unpack_bool
unpack_bool-takes_four input b n rest h =
    let (u, p, q) = >>=-eq-ok (unpack_u32 input) _ h in
    ground (arith, unpack_u32-takes_four input u.0 u.1 u.2 p)

-- The result of the loop with an item in front of the others.
abbrev pub with_item :
    {A : Type 0} → A → Result (List A × ℕ × List ℕ) Error → Result (List A × ℕ × List ℕ) Error
with_item item (ok (items, len, rest)) = ok (item ∷ items, len, rest)
with_item item (err e) = err e

then-with_item :
    {A : Type 0} (item : A) (r : Result (List A × ℕ × List ℕ) Error)
    → (r >>= λ t. ok (item ∷ t.0, t.1, t.2)) ≡ with_item item r
then-with_item item (ok t) = refl
then-with_item item (err e) = refl

nothing-io : (input : List ℕ) → length input ≤ 0 → unpack_bool input ≡ err io
unfolding unpack_bool unpack_u32 read_exact
nothing-io [] h = refl
nothing-io (b ∷ input) h = absurd (omega arith)

module _ {A : Type 0} (c : Codec A) where
  -- From the count `len` of bytes read, the loop on the input ends with the result.
  pub data Ends : ℕ → List ℕ → Result (List A × ℕ × List ℕ) Error → Type 0 where
    flag_fails :
        {len : ℕ} {input : List ℕ} {e : Error} → unpack_bool input ≡ err e → Ends len input (err e)
    last :
        {len n : ℕ} {input rest : List ℕ}
        → unpack_bool input ≡ ok (false, n, rest)
        → Ends len input (ok ([], len + n, rest))
    item_fails :
        {len n : ℕ} {input rest : List ℕ} {e : Error}
        → unpack_bool input ≡ ok (true, n, rest)
        → c.unpack rest ≡ err e
        → Ends len input (err e)
    one_more :
        {len n k : ℕ} {input rest rest' : List ℕ} {item : A}
        {result : Result (List A × ℕ × List ℕ) Error}
        → unpack_bool input ≡ ok (true, n, rest)
        → c.unpack rest ≡ ok (item, k, rest')
        → Ends (len + n + k) rest' result
        → Ends len input (with_item item result)

module _ {A : Type 0} (c : Codec A) (counts : Counts c.unpack) where
  loop-Ends :
      (fuel len : ℕ) (input : List ℕ)
      → length input ≤ fuel
      → Ends c len input (unpack_list_loop c fuel len input)
  unfolding unpack_list_loop
  loop-Ends zero len input h = flag_fails (nothing-io input h)
  loop-Ends (suc fuel) len input h = elim (Result-cases (unpack_bool input)) [
    | inr (e, p) ↦ rw p (flag_fails p)
    | inl ((false, n, rest), p) ↦ rw p (last p)
    | inl ((true, n, rest), p) ↦ elim (Result-cases (c.unpack rest)) [
      | inr (e, q) ↦ rw (p, q) (item_fails p q)
      | inl ((item, k, rest'), q) ↦
          let l = length-Took (unpack_bool-Counts input true n rest p) in
          let l' = length-Took (counts rest item k rest' q) in
          let four = unpack_bool-takes_four input true n rest p in
          let ends = loop-Ends fuel (len + n + k) rest' (omega arith) in
          rw (p, q)
            (subst (λ r. Ends c len input r)
              (sym (then-with_item item (unpack_list_loop c fuel (len + n + k) rest')))
              (one_more p q ends))
    ]
  ]

  -- The loop ends in one way only.
  Ends-loop :
      (fuel len : ℕ) (input : List ℕ) (result : Result (List A × ℕ × List ℕ) Error)
      → length input ≤ fuel
      → Ends c len input result
      → result ≡ unpack_list_loop c fuel len input
  unfolding unpack_list_loop
  Ends-loop zero len input _ h (flag_fails p) = let none_left = nothing-io input h in cc
  Ends-loop zero len input _ h (last p) = let none_left = nothing-io input h in absurd (cc)
  Ends-loop zero len input _ h (item_fails p q) = let none_left = nothing-io input h in absurd (cc)
  Ends-loop zero len input _ h (one_more p q ends) =
      let none_left = nothing-io input h in absurd (cc)
  Ends-loop (suc fuel) len input _ h (flag_fails p) = rw p refl
  Ends-loop (suc fuel) len input _ h (last p) = rw p refl
  Ends-loop (suc fuel) len input _ h (item_fails p q) = rw (p, q) refl
  Ends-loop (suc fuel) len input _ h
        (one_more {n = n} {k = k} {rest = rest} {rest' = rest'} {item = item} {result = result} p q
          ends) =
      let l = length-Took (unpack_bool-Counts input true n rest p) in
      let l' = length-Took (counts rest item k rest' q) in
      let four = unpack_bool-takes_four input true n rest p in
      let same = Ends-loop fuel (len + n + k) rest' result (omega arith) ends in
      rw (p, q)
        (ap (with_item item) same
          ∙ sym (then-with_item item (unpack_list_loop c fuel (len + n + k) rest')))

  -- If the reader of the items counts the bytes that it takes, then on every input the loop of a list,
  -- whose rounds nothing bounds, ends, and what is returned is the result that it ends with, and the
  -- only one.
  pub unpack_list-Ends :
      (input : List ℕ)
      → Ends c 0 input (unpack_list c input)
        × ((result : Result (List A × ℕ × List ℕ) Error)
            → Ends c 0 input result
            → result ≡ unpack_list c input)
  unfolding unpack_list
  unpack_list-Ends input = (
    loop-Ends (length input) 0 input (omega arith),
    λ result. Ends-loop (length input) 0 input result (omega arith),
  )
