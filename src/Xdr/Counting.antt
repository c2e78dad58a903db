-- ===== src/Xdr/Counting.antt =====
-- The count that `unpack` returns against the bytes that it takes, for xdr_codec/primitives.rs and
-- xdr_codec/opaque.rs.
pub mod Derived
pub mod Fuel
use nfs.Prelude.{ℕ, zero, suc, ◌+◌, ◌≡◌, List, ok, arith, ltb, >>=-eq-ok, inl, inr, Bool-cases}
use nfs.Xdr.Codec.{read_exact, Counts, Took, Took-trans, Took-eq, read_exact-Took}
use nfs.Xdr.Util.{get_padding}
use nfs.Xdr.Primitives.{
  unpack_u32, unpack_u64, unpack_bool, unpack_padding, unpack_array, unpack_items, unpack_vec_u32,
}
use nfs.Xdr.Opaque.{unpack_opaque}

pub unpack_u32-Counts : Counts unpack_u32
unfolding unpack_u32
unpack_u32-Counts input a n rest h =
    let (t, p, q) = >>=-eq-ok (read_exact 4 input) _ h in
    Took-eq (read_exact-Took 4 input t.0 t.1 p) (ground arith) (ground arith)

pub unpack_u64-Counts : Counts unpack_u64
unfolding unpack_u64
unpack_u64-Counts input a n rest h =
    let (t, p, q) = >>=-eq-ok (read_exact 8 input) _ h in
    Took-eq (read_exact-Took 8 input t.0 t.1 p) (ground arith) (ground arith)

pub unpack_bool-Counts : Counts unpack_bool
unfolding unpack_bool
unpack_bool-Counts input a n rest h =
    let (t, p, q) = >>=-eq-ok (unpack_u32 input) _ h in
    Took-eq (unpack_u32-Counts input t.0 t.1 t.2 p) (ground arith) (ground arith)

-- The padding is counted on top of the `k` bytes before it.
unpack_padding-Took :
    (buf : List ℕ) (k padding : ℕ) (before input a : List ℕ) (n : ℕ) (rest : List ℕ)
    → Took before input k
    → unpack_padding buf k padding input ≡ ok (a, n, rest)
    → Took before rest n
unfolding unpack_padding
unpack_padding-Took buf k padding before input a n rest took h = elim (Bool-cases (ltb 0 padding)) [
  | inl more ↦
      let h' = rw more at h in
      let (t, p, q) = >>=-eq-ok (read_exact padding input) _ h' in
      Took-eq (Took-trans took (read_exact-Took padding input t.0 t.1 p)) (ground arith)
        (ground arith)
  | inr done ↦ let h' = rw done at h in Took-eq took (ground arith) (ground arith)
]

pub unpack_array-Counts : (size : ℕ) → Counts (unpack_array size)
unfolding unpack_array
unpack_array-Counts size input a n rest h =
    let (t, p, q) = >>=-eq-ok (read_exact size input) _ h in
    unpack_padding-Took t.0 size (get_padding size) input t.1 a n rest
      (read_exact-Took size input t.0 t.1 p) q

pub unpack_opaque-Counts : Counts unpack_opaque
unfolding unpack_opaque
unpack_opaque-Counts input a n rest h =
    let (u, p, q) = >>=-eq-ok (unpack_u32 input) _ h in
    let (t, p', q') = >>=-eq-ok (read_exact u.0 u.2) _ q in
    unpack_padding-Took t.0 (u.1 + u.0) (get_padding u.0) input t.1 a n rest
      (Took-trans (unpack_u32-Counts input u.0 u.1 u.2 p) (read_exact-Took u.0 u.2 t.0 t.1 p')) q'

unpack_items-Took :
    (len k : ℕ) (before input xs : List ℕ) (n : ℕ) (rest : List ℕ)
    → Took before input k
    → unpack_items len k input ≡ ok (xs, n, rest)
    → Took before rest n
unfolding unpack_items
unpack_items-Took zero k before input xs n rest took h = Took-eq took (ground arith) (ground arith)
unpack_items-Took (suc len) k before input xs n rest took h =
    let (t, p, q) = >>=-eq-ok (unpack_u32 input) _ h in
    let (v, p', q') = >>=-eq-ok (unpack_items len (k + t.1) t.2) _ q in
    let took' = Took-trans took (unpack_u32-Counts input t.0 t.1 t.2 p) in
    Took-eq (unpack_items-Took len (k + t.1) before t.2 v.0 v.1 v.2 took' p') (ground arith)
      (ground arith)

pub unpack_vec_u32-Counts : Counts unpack_vec_u32
unfolding unpack_vec_u32
unpack_vec_u32-Counts input a n rest h =
    let (t, p, q) = >>=-eq-ok (unpack_u32 input) _ h in
    unpack_items-Took t.0 t.1 input t.2 a n rest (unpack_u32-Counts input t.0 t.1 t.2 p) q
