-- ===== src/Vfs/Handle/Generations.antt =====
-- A handle that crosses the network in crates/nfs3_server/src/vfs/handle.rs, within one run of the
-- server or from one run to another.
use nfs.Prelude.{
  ◌>>◌, ℕ, zero, suc, ◌/◌, ◌%◌, ◌^◌, ◌<◌, ◌≡◌, ◌≢◌, refl, ◌∙◌, sym, ap, some, true, false, List, [],
  ◌∷◌, ◌++◌, Result, ok, err, ok_or, length, take, drop, ltb, bytes_eq, bytes_eq_refl,
  if◌then◌else◌, Bool-cases, inl, inr, Compared, less, same, more, compare-Compared, arith,
  length-append,
}
use Prim.Native.Nat.{compare, Ordering}
use nfs.Nfs3.Status.{Nfsstat3, nfs3err_badhandle, nfs3err_stale}
use nfs.Vfs.Handle.{
  FileHandle, le_bytes, from_le_bytes, file_handle_u64, FileHandleConverter, converter,
  check_handle, fh_to_nfs, fh_from_nfs,
}

-- A handle can be made again from its bytes.
pub record LawfulHandle {H : Type 0} (handle : FileHandle H) (Valid : H → Type 0) : Type 0 where
  pub from_bytes-as_bytes : (id : H) → Valid id → handle.from_bytes (handle.as_bytes id) ≡ some id

length-le_bytes : (k n : ℕ) → length (le_bytes k n) ≡ k
unfolding le_bytes
length-le_bytes zero n = refl
length-le_bytes (suc k) n = ap suc (length-le_bytes k (n / 256))

from_le_bytes-le_bytes : (n : ℕ) → n < 2 ^ 64 → from_le_bytes (le_bytes 8 n) ≡ n
unfolding le_bytes from_le_bytes
from_le_bytes-le_bytes n h = omega arith

pub file_handle_u64-LawfulHandle : LawfulHandle file_handle_u64 (λ id. id < 2 ^ 64)
file_handle_u64-LawfulHandle = record {
  from_bytes-as_bytes =
      λ id h. let l = length-le_bytes 8 id in rw l (ap some (from_le_bytes-le_bytes id h));
}

bytes_eq-eq : (xs ys : List ℕ) → bytes_eq xs ys ≡ true → xs ≡ ys
bytes_eq-eq [] [] h = refl
bytes_eq-eq [] (y ∷ ys) h = cc
bytes_eq-eq (x ∷ xs) [] h = cc
bytes_eq-eq (x ∷ xs) (y ∷ ys) h = ground (arith, bytes_eq-eq xs ys)

take-append_len : (k : ℕ) (xs ys : List ℕ) → length xs ≡ k → take k (xs ++ ys) ≡ xs
take-append_len zero [] ys h = refl
take-append_len zero (x ∷ xs) ys h = absurd (omega arith)
take-append_len (suc k) [] ys h = absurd (omega arith)
take-append_len (suc k) (x ∷ xs) ys h = ap (λ l. x ∷ l) (take-append_len k xs ys (omega arith))

drop-append_len : (k : ℕ) (xs ys : List ℕ) → length xs ≡ k → drop k (xs ++ ys) ≡ ys
drop-append_len zero [] ys h = refl
drop-append_len zero (x ∷ xs) ys h = absurd (omega arith)
drop-append_len (suc k) [] ys h = absurd (omega arith)
drop-append_len (suc k) (x ∷ xs) ys h = drop-append_len k xs ys (omega arith)

abbrev of_generation : ℕ → FileHandleConverter
of_generation g = record { generation_number = g; generation_number_le = le_bytes 8 g }

-- The answers of `check_handle` by the order of the generations.
abbrev pub answer : {A : Type 0} → Ordering → A → Result A Nfsstat3
answer Ordering.lt a = err nfs3err_stale
answer Ordering.eq a = ok a
answer Ordering.gt a = err nfs3err_badhandle

long_enough : (g' : ℕ) (t : List ℕ) → ltb (length (le_bytes 8 g' ++ t)) 8 ≡ false
long_enough g' t =
    let l = length-append {0} (le_bytes 8 g') t in
    let k = length-le_bytes 8 g' in rw l (rw k (ground arith))

other_bytes :
    (g g' : ℕ) → g < 2 ^ 64 → g' < 2 ^ 64 → g' ≢ g → bytes_eq (le_bytes 8 g') (le_bytes 8 g) ≡ false
other_bytes g g' h h' n = elim (Bool-cases (bytes_eq (le_bytes 8 g') (le_bytes 8 g))) [
  | inr e ↦ e
  | inl e ↦ absurd (
      n (
        sym (from_le_bytes-le_bytes g' h')
        ∙ ap from_le_bytes (bytes_eq-eq (le_bytes 8 g') (le_bytes 8 g) e)
        ∙ from_le_bytes-le_bytes g h))
]

-- The part of `check_handle` behind the test of the length.
abbrev by_generation : ℕ → ℕ → Result (Unit {0}) Nfsstat3
by_generation g g' =
    if bytes_eq (le_bytes 8 g') (le_bytes 8 g)
    then ok tt
    else if ltb (from_le_bytes (le_bytes 8 g')) g
    then err nfs3err_stale
    else err nfs3err_badhandle

by_generation-answer :
    (g g' : ℕ) (o : Ordering)
    → g < 2 ^ 64
    → g' < 2 ^ 64
    → Compared g' g o
    → by_generation g g' ≡ answer o tt
by_generation-answer g g' o h h' (same e) = rw e (rw (bytes_eq_refl (le_bytes 8 g)))
by_generation-answer g g' o h h' (less l) =
    rw (other_bytes g g' h h' (λ e. omega (arith, e)))
      (rw (from_le_bytes-le_bytes g' h') (ground arith))
by_generation-answer g g' o h h' (more l) =
    rw (other_bytes g g' h h' (λ e. omega (arith, e)))
      (rw (from_le_bytes-le_bytes g' h') (ground arith))

check_handle-answer :
    (g g' : ℕ) (t : List ℕ) (o : Ordering)
    → g < 2 ^ 64
    → g' < 2 ^ 64
    → Compared g' g o
    → check_handle (of_generation g) (le_bytes 8 g' ++ t) ≡ answer o tt
unfolding check_handle
check_handle-answer g g' t o h h' c =
    let front = take-append_len 8 (le_bytes 8 g') t (length-le_bytes 8 g') in
    rw (long_enough g' t, check_handle) (rw front (by_generation-answer g g' o h h' c))

after_check :
    {H : Type 0} (o : Ordering) (id : H)
    → (answer o tt >> ok_or (some id) nfs3err_badhandle) ≡ answer o id
after_check Ordering.lt id = refl
after_check Ordering.eq id = refl
after_check Ordering.gt id = refl

module _ {H : Type 0} (handle : FileHandle H) (Valid : H → Type 0)
    (law : LawfulHandle handle Valid) where
  -- A handle comes back as it was in the run of the server that gave it out. In a run with a later
  -- generation number it is stale, and in one with an earlier number it is no handle.
  pub fh_from_nfs-verdict :
      (millis millis' : ℕ) (id : H)
      → Valid id
      → fh_from_nfs handle (converter millis) (fh_to_nfs handle (converter millis') id)
        ≡ answer (compare (millis' % 2 ^ 64) (millis % 2 ^ 64)) id
  unfolding fh_from_nfs fh_to_nfs converter
  fh_from_nfs-verdict millis millis' id v =
      let g = millis % 2 ^ 64 in
      let g' = millis' % 2 ^ 64 in
      let checked =
        check_handle-answer g g' (handle.as_bytes id) (compare g' g) (omega arith) (omega arith)
          (compare-Compared g' g) in
      rw (checked, fh_from_nfs)
        (rw (drop-append_len 8 (le_bytes 8 g') (handle.as_bytes id) (length-le_bytes 8 g'))
          (rw (law.from_bytes-as_bytes id v) (after_check (compare g' g) id)))
