-- ===== src/MemFs/FileData.antt =====
-- What the reads and writes of `File` in crates/nfs3_server/src/memfs/mod.rs do to its bytes.
use nfs.Prelude.{
  lt→ltb, some-injective, none, ℕ, zero, suc, ◌+◌, ◌-◌, ◌^◌, ◌<◌, ◌≤◌, ◌≡◌, refl, ◌∙◌, sym, ap,
  false, Bool-cases, inl, inr, some, List, [], ◌∷◌, ◌++◌, ok, length, take, drop, replicate, ltb,
  leb, ltb→lt, leb→le, length-append, length-take, length-drop, length-replicate, arith,
}
use nfs.Nfs3.Attributes.{Fattr3}
use nfs.MemFs.Entry.{
  File, resize, resized, read, write, vec_resize, overwrite, grown_for, put_bytes,
}

-- The attributes say how long the content is.
pub record IsFile (f : File) : Type 0 where
  pub size : f.attr.size ≡ length f.content
  pub used : f.attr.used ≡ length f.content

drop-all : (n : ℕ) (xs : List ℕ) → length xs ≤ n → drop n xs ≡ []
drop-all zero [] h = refl
drop-all zero (x ∷ xs) h = absurd (omega arith)
drop-all (suc n) [] h = refl
drop-all (suc n) (x ∷ xs) h = drop-all n xs (omega arith)

take-all : (n : ℕ) (xs : List ℕ) → length xs ≤ n → take n xs ≡ xs
take-all zero [] h = refl
take-all zero (x ∷ xs) h = absurd (omega arith)
take-all (suc n) [] h = refl
take-all (suc n) (x ∷ xs) h = ap (λ l. x ∷ l) (take-all n xs (omega arith))

not-ltb : (a b : ℕ) → b ≤ a → ltb a b ≡ false
not-ltb a b h = ground arith

take_nil : (n : ℕ) → take {A = ℕ} n [] ≡ []
take_nil zero = refl
take_nil (suc n) = refl

take-append : (xs ys : List ℕ) → take (length xs) (xs ++ ys) ≡ xs
take-append [] ys = refl
take-append (x ∷ xs) ys = ap (λ l. x ∷ l) (take-append xs ys)

-- A read whose end does not pass the largest offset returns the bytes from the offset on, at most as
-- many as asked for, and reports the end of the file exactly when it reaches the end of the content.
pub read-slice :
    (f : File) (offset count : ℕ)
    → offset + count < 2 ^ 64
    → read f offset count
      ≡ some (take count (drop offset f.content), leb (length f.content) (offset + count))
unfolding read
read-slice f offset count h = elim (Bool-cases (leb (length f.content) offset)) [
  | inl past ↦
      rw (drop-all offset f.content (leb→le _ _ past))
        (rw (take_nil count) (ground (arith, drop-all (length f.content) f.content)))
  | inr inside ↦ elim (Bool-cases (ltb (length f.content) (offset + count))) [
    | inl cut ↦
        rw
          (take-all count (drop offset f.content)
            (omega (arith, length-drop {0} offset f.content, ltb→lt _ _ cut)))
          (ground (
            arith,
            take-all (length f.content - offset) (drop offset f.content)
                (omega (arith, length-drop {0} offset f.content)),
          ))
    | inr whole ↦ ground arith
  ]
]

-- The length after a resize.
length-take_rest : (n : ℕ) (xs : List ℕ) → length (take n xs) + (n - length xs) ≡ n
length-take_rest zero xs = omega arith
length-take_rest (suc n) [] = omega arith
length-take_rest (suc n) (x ∷ xs) = omega (arith, length-take_rest n xs)

length-resize : (size : ℕ) (xs : List ℕ) → length (vec_resize size xs) ≡ size
length-resize size xs =
    length-append {0} (take size xs) (replicate (size - length xs) 0)
    ∙ omega (arith, length-take_rest size xs, length-replicate {A = ℕ} (size - length xs) 0)

drop-take_append : (n : ℕ) (xs ys : List ℕ) → n ≤ length xs → drop n (take n xs ++ ys) ≡ ys
drop-take_append zero xs ys h = refl
drop-take_append (suc n) [] ys h = absurd (omega arith)
drop-take_append (suc n) (x ∷ xs) ys h = drop-take_append n xs ys (omega arith)

resized-IsFile : (size : ℕ) (f : File) → IsFile (resized size f)
resized-IsFile size f = record {
  size = sym (length-resize size f.content);
  used = sym (length-resize size f.content);
}

length-overwrite :
    (offset : ℕ) (bytes content : List ℕ)
    → offset + length bytes ≤ length content
    → length (overwrite offset bytes content) ≡ length content
length-overwrite offset bytes content h =
    length-append {0} (take offset content) (bytes ++ drop (offset + length bytes) content)
    ∙ omega (
      arith,
      length-append {0} bytes (drop (offset + length bytes) content),
      length-take {0} offset content (omega arith),
      length-drop {0} (offset + length bytes) content,
    )

-- Below the largest length of a vector, the content grows without a panic.
grown-IsFile :
    (f : File) (end_offset : ℕ)
    → IsFile f
    → end_offset < 2 ^ 63
    → (g : File) × (grown_for end_offset f ≡ some g) × IsFile g × (end_offset ≤ length g.content)
unfolding grown_for resize
grown-IsFile f end_offset v fits = elim (Bool-cases (ltb (length f.content) end_offset)) [
  | inl short ↦ (
    resized end_offset f,
    rw short (rw (lt→ltb end_offset (2 ^ 63) fits) refl),
    resized-IsFile end_offset f,
    omega (arith, length-resize end_offset f.content),
  )
  | inr long ↦ (f, rw long refl, v, ground arith)
]

pub grown_for-fileid :
    (f : File) (end_offset : ℕ) (g : File)
    → grown_for end_offset f ≡ some g
    → g.attr.fileid ≡ f.attr.fileid
unfolding grown_for resize
grown_for-fileid f end_offset g h = elim (Bool-cases (ltb (length f.content) end_offset)) [
  | inl short ↦ elim (Bool-cases (ltb end_offset (2 ^ 63))) [
    | inl fits ↦ ap (λ x. x.attr.fileid) (some-injective (rw fits at (rw short at h)) refl)
    | inr large ↦ absurd (ground (arith, rw large at (rw short at h)))
  ]
  | inr long ↦ ap (λ x. x.attr.fileid) (some-injective (rw long at h) refl)
]

-- A write that starts within the content or at its end, and ends below the largest length of a
-- vector, succeeds without a panic, and leaves a file whose attributes still give its length; a read of
-- the same range returns the bytes written.
pub write-read :
    (f : File) (offset : ℕ) (bytes : List ℕ)
    → IsFile f
    → offset ≤ length f.content
    → offset + length bytes < 2 ^ 63
    → (attr : Fattr3) × (f' : File) × (write f offset bytes ≡ some (ok (attr, f')))
      × IsFile f'
      × (attr ≡ f'.attr)
      × (read f' offset (length bytes)
          ≡ some (bytes, leb (length f'.content) (offset + length bytes)))
unfolding write
write-read f offset bytes v h fits =
    let (g, grown, vg, enough) = grown-IsFile f (offset + length bytes) v fits in
    let l = length-overwrite offset bytes g.content enough in
    (
      _,
      put_bytes offset bytes g,
      rw (not-ltb (length f.content) offset h) (rw grown refl),
      record { size = vg.size ∙ sym l; used = vg.used ∙ sym l },
      refl,
      read-slice (put_bytes offset bytes g) offset (length bytes) (omega arith)
          ∙ rw
              (drop-take_append offset g.content (bytes ++ drop (offset + length bytes) g.content)
                (omega arith))
              (rw (take-append bytes (drop (offset + length bytes) g.content))),
    )

-- The sum of offset and count wraps when it passes the largest offset. If what is left of it lies
-- inside the content, the slice starts behind its end: the read panics.
pub read-overflow :
    (f : File) (offset count : ℕ)
    → offset < 2 ^ 64
    → count < 2 ^ 32
    → length f.content < 2 ^ 63
    → 2 ^ 64 ≤ offset + count
    → offset + count < length f.content + 2 ^ 64
    → read f offset count ≡ none
unfolding read
read-overflow f offset count h k l over inside = ground arith
