-- ===== src/Nfs3/RoundTrip.antt =====
-- The contract `Lawful` for the codecs of crates/nfs3_types/src/nfs3.rs.
pub mod Results
pub mod Wire
use nfs.Prelude.{
  ℕ, ◌≡◌, refl, List, some, none, Option, arith, ok, ◌++◌, length, append_assoc, length-append, ◌%◌,
  ◌+◌, ◌≢◌,
}
use nfs.Xdr.Codec.{Codec, Lawful}
use nfs.Xdr.Primitives.{IsU32, IsU64, u32_codec, u64_codec}
use nfs.Xdr.Derive.{find_variant, unpack_with, unpack_unit, simple_enum_codec}
use nfs.Xdr.RoundTrip.{Anything, u32_codec-Lawful, u64_codec-Lawful}
use nfs.Xdr.RoundTrip.Derived.{
  no_fields-Lawful, field-Lawful, struct_codec-Lawful, simple_enum_codec-Lawful, LawfulVariant,
  by_variant, value-Lawful, unit-Lawful, complex_enum_codec-Lawful, lawful_on,
}
use nfs.Nfs3.Status.{
  Nfsstat3, nfs3_ok, nfsstat3_discriminant, nfsstat3_variants, nfsstat3_codec, Nfs3Result,
  succeeded, failed, nfs3_result_size, pack_nfs3_result, unpack_by_status, unpack_nfs3_result,
  nfs3_result_codec,
}
use nfs.Nfs3.Attributes.{
  Ftype3, ftype3_discriminant, ftype3_variants, ftype3_codec, Specdata3, specdata3_codec, Nfstime3,
  nfstime3_codec, Fattr3, fattr3_codec, option_value, option_size, pack_option, unpack_option,
  option_variants, option_codec, SetTime, dont_change, set_to_server_time, set_to_client_time,
  set_time_value, set_time_size, pack_set_time, unpack_set_time, set_time_variants, set_time_codec,
  Sattr3, sattr3_codec,
}

nfsstat3_found :
    (a : Nfsstat3)
    → IsU32 (nfsstat3_discriminant a)
      × (find_variant nfsstat3_discriminant nfsstat3_variants (nfsstat3_discriminant a) ≡ some a)
unfolding find_variant
nfsstat3_found a = ground arith

pub nfsstat3_codec-Lawful : Lawful nfsstat3_codec Anything
unfolding nfsstat3_codec
nfsstat3_codec-Lawful =
    simple_enum_codec-Lawful nfsstat3_discriminant nfsstat3_variants nfsstat3_found

ftype3_found :
    (a : Ftype3)
    → IsU32 (ftype3_discriminant a)
      × (find_variant ftype3_discriminant ftype3_variants (ftype3_discriminant a) ≡ some a)
unfolding find_variant
ftype3_found a = ground arith

pub ftype3_codec-Lawful : Lawful ftype3_codec Anything
unfolding ftype3_codec
ftype3_codec-Lawful = simple_enum_codec-Lawful ftype3_discriminant ftype3_variants ftype3_found

abbrev pub IsSpecdata3 : Specdata3 → Type 0
IsSpecdata3 s = IsU32 s.specdata1 × IsU32 s.specdata2

pub specdata3_codec-Lawful : Lawful specdata3_codec IsSpecdata3
unfolding specdata3_codec
specdata3_codec-Lawful =
    lawful_on _ _ IsSpecdata3
      (struct_codec-Lawful {S = Specdata3} _ _ _ _
        (field-Lawful _ _ _ _ u32_codec-Lawful
          (field-Lawful _ _ _ _ u32_codec-Lawful no_fields-Lawful))
        (λ a i. a))
      (λ a h. (h.0, (h.1, tt)))

abbrev pub IsNfstime3 : Nfstime3 → Type 0
IsNfstime3 s = IsU32 s.seconds × IsU32 s.nseconds

pub nfstime3_codec-Lawful : Lawful nfstime3_codec IsNfstime3
unfolding nfstime3_codec
nfstime3_codec-Lawful =
    lawful_on _ _ IsNfstime3
      (struct_codec-Lawful {S = Nfstime3} _ _ _ _
        (field-Lawful _ _ _ _ u32_codec-Lawful
          (field-Lawful _ _ _ _ u32_codec-Lawful no_fields-Lawful))
        (λ a i. a))
      (λ a h. (h.0, (h.1, tt)))

-- Every number fits the word that carries it.
abbrev pub IsFattr3 : Fattr3 → Type 0
IsFattr3 s =
    Unit
    × IsU32 s.mode
    × IsU32 s.nlink
    × IsU32 s.uid
    × IsU32 s.gid
    × IsU64 s.size
    × IsU64 s.used
    × IsSpecdata3 s.rdev
    × IsU64 s.fsid
    × IsU64 s.fileid
    × IsNfstime3 s.atime
    × IsNfstime3 s.mtime
    × IsNfstime3 s.ctime

-- Attributes are packed and read back, where every number fits the word that carries it.
pub fattr3_codec-Lawful : Lawful fattr3_codec IsFattr3
unfolding fattr3_codec
fattr3_codec-Lawful =
    lawful_on _ _ IsFattr3
      (struct_codec-Lawful {S = Fattr3} _ _ _ _
        (field-Lawful _ _ _ _ ftype3_codec-Lawful (
          field-Lawful _ _ _ _ u32_codec-Lawful (
            field-Lawful _ _ _ _ u32_codec-Lawful (
              field-Lawful _ _ _ _ u32_codec-Lawful (
                field-Lawful _ _ _ _ u32_codec-Lawful (
                  field-Lawful _ _ _ _ u64_codec-Lawful (
                    field-Lawful _ _ _ _ u64_codec-Lawful (
                      field-Lawful _ _ _ _ specdata3_codec-Lawful (
                        field-Lawful _ _ _ _ u64_codec-Lawful (
                          field-Lawful _ _ _ _ u64_codec-Lawful (
                            field-Lawful _ _ _ _ nfstime3_codec-Lawful (
                              field-Lawful _ _ _ _ nfstime3_codec-Lawful (
                                field-Lawful _ _ _ _ nfstime3_codec-Lawful
                                  no_fields-Lawful)))))))))))))
        (λ a i. a))
      (λ a h. (
        h.0,
        (h.1, (h.2, (h.3, (h.4, (h.5, (h.6, (h.7, (h.8, (h.9, (h.10, (h.11, (h.12, tt)))))))))))),
      ))

module _ {T : Type 0} (c : Codec T) (V : T → Type 0) (law : Lawful c V) where
  abbrev pub IsOption : Option T → Type 0
  IsOption (some t) = V t
  IsOption none = Unit

  pub option_variants-LawfulVariant :
      (o : Option T) → LawfulVariant (option_variants c) o (IsOption o)
  unfolding option_value option_size pack_option unpack_option
  option_variants-LawfulVariant (some t) =
      value-Lawful (option_variants c) c V some t law (omega arith) refl (λ out. refl) refl
  option_variants-LawfulVariant none =
      unit-Lawful (option_variants c) none (omega arith) refl (λ out. refl) refl

  pub option_codec-Lawful : Lawful (option_codec c) IsOption
  unfolding option_codec
  option_codec-Lawful =
      complex_enum_codec-Lawful (option_variants c) IsOption
        (by_variant _ _ option_variants-LawfulVariant)

abbrev pub IsSetTime : SetTime → Type 0
IsSetTime (set_to_client_time t) = IsNfstime3 t
IsSetTime _ = Unit

set_time_variants-LawfulVariant : (o : SetTime) → LawfulVariant set_time_variants o (IsSetTime o)
unfolding set_time_value set_time_size pack_set_time unpack_set_time
set_time_variants-LawfulVariant (set_to_client_time t) =
    value-Lawful set_time_variants nfstime3_codec IsNfstime3 set_to_client_time t
      nfstime3_codec-Lawful (omega arith) refl (λ out. refl) refl
set_time_variants-LawfulVariant dont_change =
    unit-Lawful set_time_variants _ (omega arith) refl (λ out. refl) refl
set_time_variants-LawfulVariant set_to_server_time =
    unit-Lawful set_time_variants _ (omega arith) refl (λ out. refl) refl

pub set_time_codec-Lawful : Lawful set_time_codec IsSetTime
unfolding set_time_codec
set_time_codec-Lawful =
    complex_enum_codec-Lawful set_time_variants IsSetTime
      (by_variant _ _ set_time_variants-LawfulVariant)

abbrev pub IsOptionU32 : Option ℕ → Type 0
IsOptionU32 = IsOption u32_codec IsU32 u32_codec-Lawful

abbrev pub IsOptionU64 : Option ℕ → Type 0
IsOptionU64 = IsOption u64_codec IsU64 u64_codec-Lawful

abbrev pub IsSattr3 : Sattr3 → Type 0
IsSattr3 s =
    IsOptionU32 s.mode
    × IsOptionU32 s.uid
    × IsOptionU32 s.gid
    × IsOptionU64 s.size
    × IsSetTime s.atime
    × IsSetTime s.mtime

-- Settable attributes, each of them optional, are packed and read back, where every number that is
-- there fits its word.
pub sattr3_codec-Lawful : Lawful sattr3_codec IsSattr3
unfolding sattr3_codec
sattr3_codec-Lawful =
    lawful_on _ _ IsSattr3
      (struct_codec-Lawful {S = Sattr3} _ _ _ _
        (field-Lawful _ _ _ _ (option_codec-Lawful _ _ u32_codec-Lawful) (
          field-Lawful _ _ _ _ (option_codec-Lawful _ _ u32_codec-Lawful) (
            field-Lawful _ _ _ _ (option_codec-Lawful _ _ u32_codec-Lawful) (
              field-Lawful _ _ _ _ (option_codec-Lawful _ _ u64_codec-Lawful) (
                field-Lawful _ _ _ _ set_time_codec-Lawful
                  (field-Lawful _ _ _ _ set_time_codec-Lawful no_fields-Lawful))))))
        (λ a i. a))
      (λ a h. (h.0, (h.1, (h.2, (h.3, (h.4, (h.5, tt)))))))
