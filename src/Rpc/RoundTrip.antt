-- ===== src/Rpc/RoundTrip.antt =====
-- The contract `Lawful` for the codecs of crates/nfs3_types/src/rpc.rs.
pub mod Replies
pub mod Messages
use nfs.Prelude.{some, ◌≡◌, arith}
use nfs.Xdr.Codec.{Lawful}
use nfs.Xdr.Primitives.{IsU32}
use nfs.Xdr.Derive.{find_variant}
use nfs.Xdr.RoundTrip.{u32_codec-Lawful, opaque_codec-Lawful, IsOpaque, Anything}
use nfs.Xdr.RoundTrip.Derived.{
  no_fields-Lawful, field-Lawful, struct_codec-Lawful, lawful_on, simple_enum_codec-Lawful,
}
use nfs.Xdr.RoundTrip.Vectors.{IsVector, vec_u32_codec-Lawful}
use nfs.Rpc.Auth.{
  OpaqueAuth, opaque_auth_codec, AuthUnix, auth_unix_codec, CallBody, call_body_codec,
}
use nfs.Rpc.Stats.{
  reject_stats, auth_stats, auth_flavors, reject_stat_discriminant, auth_stat_discriminant,
  auth_flavor_discriminant, AuthStat, auth_stat_codec, auth_unix, auth_flavor_codec, AuthFlavor,
  RejectStat, reject_stat_codec, accept_stats, accept_stat_codec, accept_stat_discriminant,
  AcceptStat,
}

pub accept_stat_found :
    (a : AcceptStat)
    → IsU32 (accept_stat_discriminant a)
      × (find_variant accept_stat_discriminant accept_stats (accept_stat_discriminant a) ≡ some a)
unfolding find_variant
accept_stat_found a = ground arith

pub accept_stat_codec-Lawful : Lawful accept_stat_codec Anything
unfolding accept_stat_codec
accept_stat_codec-Lawful =
    simple_enum_codec-Lawful accept_stat_discriminant accept_stats accept_stat_found

reject_stat_found :
    (a : RejectStat)
    → IsU32 (reject_stat_discriminant a)
      × (find_variant reject_stat_discriminant reject_stats (reject_stat_discriminant a) ≡ some a)
unfolding find_variant
reject_stat_found a = ground arith

pub reject_stat_codec-Lawful : Lawful reject_stat_codec Anything
unfolding reject_stat_codec
reject_stat_codec-Lawful =
    simple_enum_codec-Lawful reject_stat_discriminant reject_stats reject_stat_found

auth_stat_found :
    (a : AuthStat)
    → IsU32 (auth_stat_discriminant a)
      × (find_variant auth_stat_discriminant auth_stats (auth_stat_discriminant a) ≡ some a)
unfolding find_variant
auth_stat_found a = ground arith

pub auth_stat_codec-Lawful : Lawful auth_stat_codec Anything
unfolding auth_stat_codec
auth_stat_codec-Lawful = simple_enum_codec-Lawful auth_stat_discriminant auth_stats auth_stat_found

auth_flavor_found :
    (a : AuthFlavor)
    → IsU32 (auth_flavor_discriminant a)
      × (find_variant auth_flavor_discriminant auth_flavors (auth_flavor_discriminant a) ≡ some a)
unfolding find_variant
auth_flavor_found a = ground arith

pub auth_flavor_codec-Lawful : Lawful auth_flavor_codec Anything
unfolding auth_flavor_codec
auth_flavor_codec-Lawful =
    simple_enum_codec-Lawful auth_flavor_discriminant auth_flavors auth_flavor_found

-- A body whose length fits the word that counts it.
abbrev pub IsOpaqueAuth : OpaqueAuth → Type 0
IsOpaqueAuth a = IsOpaque a.body

pub opaque_auth_codec-Lawful : Lawful opaque_auth_codec IsOpaqueAuth
unfolding opaque_auth_codec
opaque_auth_codec-Lawful =
    lawful_on _ _ IsOpaqueAuth
      (struct_codec-Lawful {S = OpaqueAuth} _ _ _ _
        (field-Lawful _ _ _ _ auth_flavor_codec-Lawful
          (field-Lawful _ _ _ _ opaque_codec-Lawful no_fields-Lawful))
        (λ a i. a))
      (λ a h. (tt, (h, tt)))

abbrev pub IsAuthUnix : AuthUnix → Type 0
IsAuthUnix a = IsU32 a.stamp × IsOpaque a.machinename × IsU32 a.uid × IsU32 a.gid × IsVector a.gids

pub auth_unix_codec-Lawful : Lawful auth_unix_codec IsAuthUnix
unfolding auth_unix_codec
auth_unix_codec-Lawful =
    lawful_on _ _ IsAuthUnix
      (struct_codec-Lawful {S = AuthUnix} _ _ _ _
        (field-Lawful _ _ _ _ u32_codec-Lawful (
          field-Lawful _ _ _ _ opaque_codec-Lawful (
            field-Lawful _ _ _ _ u32_codec-Lawful (
              field-Lawful _ _ _ _ u32_codec-Lawful
                (field-Lawful _ _ _ _ vec_u32_codec-Lawful no_fields-Lawful)))))
        (λ a i. a))
      (λ a h. (h.0, (h.1, (h.2, (h.3, (h.4, tt))))))

abbrev pub IsCallBody : CallBody → Type 0
IsCallBody b =
    IsU32 b.rpcvers
    × IsU32 b.prog
    × IsU32 b.vers
    × IsU32 b.proc
    × IsOpaqueAuth b.cred
    × IsOpaqueAuth b.verf

pub call_body_codec-Lawful : Lawful call_body_codec IsCallBody
unfolding call_body_codec
call_body_codec-Lawful =
    lawful_on _ _ IsCallBody
      (struct_codec-Lawful {S = CallBody} _ _ _ _
        (field-Lawful _ _ _ _ u32_codec-Lawful (
          field-Lawful _ _ _ _ u32_codec-Lawful (
            field-Lawful _ _ _ _ u32_codec-Lawful (
              field-Lawful _ _ _ _ u32_codec-Lawful (
                field-Lawful _ _ _ _ opaque_auth_codec-Lawful
                  (field-Lawful _ _ _ _ opaque_auth_codec-Lawful no_fields-Lawful))))))
        (λ a i. a))
      (λ b h. (h.0, (h.1, (h.2, (h.3, (h.4, (h.5, tt)))))))
