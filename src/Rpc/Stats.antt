-- ===== src/Rpc/Stats.antt =====
-- The enums with no data of crates/nfs3_types/src/rpc.rs, and their derived codecs.
use nfs.Prelude.{ℕ, List, [], ◌∷◌}
use nfs.Xdr.Codec.{Codec}
use nfs.Xdr.Derive.{simple_enum_codec}

pub data AcceptStat : Type 0 where
  success : AcceptStat
  prog_unavail : AcceptStat
  prog_mismatch : AcceptStat
  proc_unavail : AcceptStat
  garbage_args : AcceptStat
  system_err : AcceptStat

abbrev pub accept_stat_discriminant : AcceptStat → ℕ
accept_stat_discriminant AcceptStat.success = 0
accept_stat_discriminant AcceptStat.prog_unavail = 1
accept_stat_discriminant AcceptStat.prog_mismatch = 2
accept_stat_discriminant AcceptStat.proc_unavail = 3
accept_stat_discriminant AcceptStat.garbage_args = 4
accept_stat_discriminant AcceptStat.system_err = 5

abbrev pub accept_stats : List AcceptStat
accept_stats =
    AcceptStat.success ∷ AcceptStat.prog_unavail ∷ AcceptStat.prog_mismatch
    ∷ AcceptStat.proc_unavail ∷ AcceptStat.garbage_args ∷ AcceptStat.system_err ∷ []

unfoldable pub accept_stat_codec : Codec AcceptStat
accept_stat_codec = simple_enum_codec accept_stat_discriminant accept_stats

pub data RejectStat : Type 0 where
  rpc_mismatch : RejectStat
  auth_error : RejectStat

abbrev pub reject_stat_discriminant : RejectStat → ℕ
reject_stat_discriminant RejectStat.rpc_mismatch = 0
reject_stat_discriminant RejectStat.auth_error = 1

abbrev pub reject_stats : List RejectStat
reject_stats = RejectStat.rpc_mismatch ∷ RejectStat.auth_error ∷ []

unfoldable pub reject_stat_codec : Codec RejectStat
reject_stat_codec = simple_enum_codec reject_stat_discriminant reject_stats

pub data AuthStat : Type 0 where
  auth_ok : AuthStat
  auth_badcred : AuthStat
  auth_rejectedcred : AuthStat
  auth_badverf : AuthStat
  auth_rejectedverf : AuthStat
  auth_tooweak : AuthStat
  auth_invalidresp : AuthStat
  auth_failed : AuthStat

abbrev pub auth_stat_discriminant : AuthStat → ℕ
auth_stat_discriminant auth_ok = 0
auth_stat_discriminant auth_badcred = 1
auth_stat_discriminant auth_rejectedcred = 2
auth_stat_discriminant auth_badverf = 3
auth_stat_discriminant auth_rejectedverf = 4
auth_stat_discriminant auth_tooweak = 5
auth_stat_discriminant auth_invalidresp = 6
auth_stat_discriminant auth_failed = 7

abbrev pub auth_stats : List AuthStat
auth_stats =
    auth_ok ∷ auth_badcred ∷ auth_rejectedcred ∷ auth_badverf ∷ auth_rejectedverf ∷ auth_tooweak
    ∷ auth_invalidresp ∷ auth_failed ∷ []

unfoldable pub auth_stat_codec : Codec AuthStat
auth_stat_codec = simple_enum_codec auth_stat_discriminant auth_stats

pub data AuthFlavor : Type 0 where
  auth_null : AuthFlavor
  auth_unix : AuthFlavor
  auth_short : AuthFlavor
  auth_des : AuthFlavor

abbrev pub auth_flavor_discriminant : AuthFlavor → ℕ
auth_flavor_discriminant auth_null = 0
auth_flavor_discriminant auth_unix = 1
auth_flavor_discriminant auth_short = 2
auth_flavor_discriminant auth_des = 3

abbrev pub auth_flavors : List AuthFlavor
auth_flavors = auth_null ∷ auth_unix ∷ auth_short ∷ auth_des ∷ []

unfoldable pub auth_flavor_codec : Codec AuthFlavor
auth_flavor_codec = simple_enum_codec auth_flavor_discriminant auth_flavors
