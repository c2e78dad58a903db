-- ===== src/Nfs3/RoundTrip/Wire.antt =====
-- The bytes of `fattr3` of crates/nfs3_types/src/nfs3.rs, field by field.
use nfs.Prelude.{
  ℕ, ◌≡◌, refl, ◌∙◌, sym, ap, List, [], ◌∷◌, ◌++◌, ok, length, append_assoc, append-nil, arith,
}
use nfs.Xdr.Primitives.{to_be_bytes, to_be_bytes_u64}
use nfs.Nfs3.Attributes.{Ftype3, ftype3_discriminant, Fattr3, fattr3_codec}
use nfs.Nfs3.RoundTrip.{IsFattr3, fattr3_codec-Lawful}

-- The parts one behind the other, and the parts written behind a buffer one by one.
abbrev pub joined : List (List ℕ) → List ℕ
joined [] = []
joined (part ∷ parts) = part ++ joined parts

appended : List ℕ → List (List ℕ) → List ℕ
appended out [] = out
appended out (part ∷ parts) = appended (out ++ part) parts

appended-eq-joined :
    (out : List ℕ) (parts : List (List ℕ)) → appended out parts ≡ out ++ joined parts
unfolding appended
appended-eq-joined out [] = ground (arith, append-nil out)
appended-eq-joined out (part ∷ parts) =
    appended-eq-joined (out ++ part) parts ∙ append_assoc out part (joined parts)

-- The layout of RFC 1813: the type, the mode, the links, the owner, the group, the two sizes, the
-- device, the file system, the handle and the three times.
abbrev pub parts : Fattr3 → List (List ℕ)
parts f =
    to_be_bytes (ftype3_discriminant f.type_)
    ∷ to_be_bytes f.mode
    ∷ to_be_bytes f.nlink
    ∷ to_be_bytes f.uid
    ∷ to_be_bytes f.gid
    ∷ to_be_bytes_u64 f.size
    ∷ to_be_bytes_u64 f.used
    ∷ to_be_bytes f.rdev.specdata1
    ∷ to_be_bytes f.rdev.specdata2
    ∷ to_be_bytes_u64 f.fsid
    ∷ to_be_bytes_u64 f.fileid
    ∷ to_be_bytes f.atime.seconds
    ∷ to_be_bytes f.atime.nseconds
    ∷ to_be_bytes f.mtime.seconds
    ∷ to_be_bytes f.mtime.nseconds
    ∷ to_be_bytes f.ctime.seconds
    ∷ to_be_bytes f.ctime.nseconds
    ∷ []

fattr3-size : (f : Fattr3) → fattr3_codec.packed_size f ≡ 84
unfolding fattr3_codec nfs.Xdr.Derive.struct_codec nfs.Xdr.Derive.◌&◌
    nfs.Nfs3.Attributes.ftype3_codec nfs.Xdr.Derive.simple_enum_codec
    nfs.Nfs3.Attributes.specdata3_codec nfs.Nfs3.Attributes.nfstime3_codec
fattr3-size f = refl

fattr3-appended :
    (f : Fattr3) (out : List ℕ) → fattr3_codec.pack f out ≡ ok (84, appended out (parts f))
unfolding fattr3_codec appended nfs.Xdr.Derive.struct_codec nfs.Xdr.Derive.◌&◌
    nfs.Nfs3.Attributes.ftype3_codec nfs.Xdr.Derive.simple_enum_codec nfs.Xdr.Primitives.pack_u32
    nfs.Xdr.Primitives.pack_u64 nfs.Nfs3.Attributes.specdata3_codec
    nfs.Nfs3.Attributes.nfstime3_codec
fattr3-appended f out = refl

fattr3-packed :
    (f : Fattr3) (out : List ℕ) → fattr3_codec.pack f out ≡ ok (84, out ++ joined (parts f))
fattr3-packed f out =
    fattr3-appended f out ∙ ap (λ o. ok (84, o)) (appended-eq-joined out (parts f))

encode-eq-joined : (f : Fattr3) → IsFattr3 f → fattr3_codec-Lawful.encode f ≡ joined (parts f)
encode-eq-joined f h =
    let law = fattr3_codec-Lawful.pack_lem f [] h in let packed = fattr3-packed f [] in cc

-- Attributes whose numbers fit their words are packed into 84 bytes, the fields of the protocol in its
-- order, without anything between them, and are read back from these bytes, whatever stands behind
-- them; 84 is what `packed_size` reports.
pub fattr3_codec-eq-wire :
    (f : Fattr3) (out rest : List ℕ)
    → IsFattr3 f
    → (fattr3_codec.pack f out ≡ ok (84, out ++ joined (parts f)))
      × (fattr3_codec.packed_size f ≡ 84)
      × (length (joined (parts f)) ≡ 84)
      × (fattr3_codec.unpack (joined (parts f) ++ rest) ≡ ok (f, 84, rest))
fattr3_codec-eq-wire f out rest h =
    let same = encode-eq-joined f h in
    (
      fattr3-packed f out,
      fattr3-size f,
      ap length (sym same) ∙ (fattr3_codec-Lawful.length_lem f h ∙ fattr3-size f),
      ap (λ e. fattr3_codec.unpack (e ++ rest)) (sym same)
          ∙ (fattr3_codec-Lawful.unpack_lem f rest h ∙ ap (λ n. ok (f, n, rest)) (fattr3-size f)),
    )
