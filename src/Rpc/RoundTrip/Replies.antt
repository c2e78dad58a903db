-- ===== src/Rpc/RoundTrip/Replies.antt =====
-- The contract `Lawful` for the codecs of `accept_stat_data` and `rejected_reply`.
use nfs.Prelude.{
  ◌-◌, ℕ, ◌+◌, ◌%◌, ◌≡◌, refl, List, [], ◌++◌, ok, length, length-append, append_assoc, append-nil,
  arith,
}
use nfs.Xdr.Codec.{Lawful}
use nfs.Xdr.Primitives.{IsU32, pack_u32, to_be_bytes}
use nfs.Xdr.Derive.{simple_enum_codec}
use nfs.Xdr.RoundTrip.{unpack_u32-to_be_bytes}
use nfs.Rpc.Stats.{
  AcceptStat, accept_stat_codec, RejectStat, reject_stat_codec, AuthStat, auth_stat_codec,
}
use nfs.Rpc.Replies.{
  AcceptStatData, accept_stat_data_size, pack_accept_stat_data, unpack_accept_body,
  unpack_accept_stat_data, accept_stat_data_codec, RejectedReply, rejected_reply_size,
  pack_rejected_reply, unpack_reject_body, unpack_rejected_reply, rejected_reply_codec,
}
use nfs.Rpc.RoundTrip.{accept_stat_codec-Lawful, reject_stat_codec-Lawful, auth_stat_codec-Lawful}

-- Versions that fit their words.
abbrev pub IsAcceptStatData : AcceptStatData → Type 0
IsAcceptStatData (AcceptStatData.prog_mismatch low high) = IsU32 low × IsU32 high
IsAcceptStatData _ = Unit

abbrev accept_stat_of : AcceptStatData → AcceptStat
accept_stat_of AcceptStatData.success = AcceptStat.success
accept_stat_of AcceptStatData.prog_unavail = AcceptStat.prog_unavail
accept_stat_of (AcceptStatData.prog_mismatch low high) = AcceptStat.prog_mismatch
accept_stat_of AcceptStatData.proc_unavail = AcceptStat.proc_unavail
accept_stat_of AcceptStatData.garbage_args = AcceptStat.garbage_args
accept_stat_of AcceptStatData.system_err = AcceptStat.system_err

abbrev accept_body : AcceptStatData → List ℕ
accept_body (AcceptStatData.prog_mismatch low high) = to_be_bytes low ++ to_be_bytes high
accept_body _ = []

abbrev encode_accept : AcceptStatData → List ℕ
encode_accept a = accept_stat_codec-Lawful.encode (accept_stat_of a) ++ accept_body a

accept_stat_size : (a : AcceptStat) → accept_stat_codec.packed_size a ≡ 4
unfolding accept_stat_codec simple_enum_codec
accept_stat_size a = refl

reject_stat_size : (a : RejectStat) → reject_stat_codec.packed_size a ≡ 4
unfolding reject_stat_codec simple_enum_codec
reject_stat_size a = refl

auth_stat_size : (a : AuthStat) → auth_stat_codec.packed_size a ≡ 4
unfolding auth_stat_codec simple_enum_codec
auth_stat_size a = refl

pack_accept_lem :
    (a : AcceptStatData) (out : List ℕ)
    → pack_accept_stat_data a out ≡ ok (accept_stat_data_size a, out ++ encode_accept a)
unfolding pack_accept_stat_data accept_stat_data_size pack_u32
pack_accept_lem (AcceptStatData.prog_mismatch low high) out =
    rw (accept_stat_codec-Lawful.pack_lem AcceptStat.prog_mismatch out tt) (
      ground (
        arith,
        accept_stat_size AcceptStat.prog_mismatch,
        append_assoc (out ++ accept_stat_codec-Lawful.encode AcceptStat.prog_mismatch)
            (to_be_bytes low) (to_be_bytes high),
        append_assoc out (accept_stat_codec-Lawful.encode AcceptStat.prog_mismatch)
            (to_be_bytes low ++ to_be_bytes high),
      ))
pack_accept_lem AcceptStatData.success out =
    rw (append-nil (accept_stat_codec-Lawful.encode AcceptStat.success)) (
      rw (accept_stat_codec-Lawful.pack_lem AcceptStat.success out tt)
        (ground (arith, accept_stat_size AcceptStat.success)))
pack_accept_lem AcceptStatData.prog_unavail out =
    rw (append-nil (accept_stat_codec-Lawful.encode AcceptStat.prog_unavail)) (
      rw (accept_stat_codec-Lawful.pack_lem AcceptStat.prog_unavail out tt)
        (ground (arith, accept_stat_size AcceptStat.prog_unavail)))
pack_accept_lem AcceptStatData.proc_unavail out =
    rw (append-nil (accept_stat_codec-Lawful.encode AcceptStat.proc_unavail)) (
      rw (accept_stat_codec-Lawful.pack_lem AcceptStat.proc_unavail out tt)
        (ground (arith, accept_stat_size AcceptStat.proc_unavail)))
pack_accept_lem AcceptStatData.garbage_args out =
    rw (append-nil (accept_stat_codec-Lawful.encode AcceptStat.garbage_args)) (
      rw (accept_stat_codec-Lawful.pack_lem AcceptStat.garbage_args out tt)
        (ground (arith, accept_stat_size AcceptStat.garbage_args)))
pack_accept_lem AcceptStatData.system_err out =
    rw (append-nil (accept_stat_codec-Lawful.encode AcceptStat.system_err)) (
      rw (accept_stat_codec-Lawful.pack_lem AcceptStat.system_err out tt)
        (ground (arith, accept_stat_size AcceptStat.system_err)))

accept_stat_data_size_lem :
    (a : AcceptStatData)
    → (length (accept_body a) + 4 ≡ accept_stat_data_size a) × (accept_stat_data_size a % 4 ≡ 0)
unfolding accept_stat_data_size to_be_bytes
accept_stat_data_size_lem a = ground arith

unpack_accept_body_lem :
    (a : AcceptStatData) (rest : List ℕ)
    → IsAcceptStatData a
    → unpack_accept_body (accept_stat_of a) (accept_body a ++ rest)
      ≡ ok (a, accept_stat_data_size a - 4, rest)
unfolding unpack_accept_body accept_stat_data_size
unpack_accept_body_lem (AcceptStatData.prog_mismatch low high) rest h =
    rw (append_assoc (to_be_bytes low) (to_be_bytes high) rest) (
      rw (unpack_u32-to_be_bytes low (to_be_bytes high ++ rest) h.0)
        (rw (unpack_u32-to_be_bytes high rest h.1)))
unpack_accept_body_lem AcceptStatData.success rest h = refl
unpack_accept_body_lem AcceptStatData.prog_unavail rest h = refl
unpack_accept_body_lem AcceptStatData.proc_unavail rest h = refl
unpack_accept_body_lem AcceptStatData.garbage_args rest h = refl
unpack_accept_body_lem AcceptStatData.system_err rest h = refl

pub accept_stat_data_codec-Lawful : Lawful accept_stat_data_codec IsAcceptStatData
unfolding unpack_accept_stat_data accept_stat_data_size accept_stat_codec simple_enum_codec
accept_stat_data_codec-Lawful = record {
  encode = encode_accept;
  pack_lem = λ a out h. pack_accept_lem a out;
  length_lem = λ a h. omega (
    arith,
    accept_stat_codec-Lawful.length_lem (accept_stat_of a) tt,
    (accept_stat_data_size_lem a).0,
    length-append {0} (accept_stat_codec-Lawful.encode (accept_stat_of a)) (accept_body a),
  );
  aligned = λ a h. (accept_stat_data_size_lem a).1;
  unpack_lem = λ a rest h.
      rw (append_assoc (accept_stat_codec-Lawful.encode (accept_stat_of a)) (accept_body a) rest) (
        rw (accept_stat_codec-Lawful.unpack_lem (accept_stat_of a) (accept_body a ++ rest) tt)
          (rw (unpack_accept_body_lem a rest h) (ground (arith, (accept_stat_data_size_lem a).0))));
}

-- Versions that fit their words.
abbrev pub IsRejectedReply : RejectedReply → Type 0
IsRejectedReply (RejectedReply.rpc_mismatch low high) = IsU32 low × IsU32 high
IsRejectedReply (RejectedReply.auth_error auth_stat) = Unit

abbrev reject_stat_of : RejectedReply → RejectStat
reject_stat_of (RejectedReply.rpc_mismatch low high) = RejectStat.rpc_mismatch
reject_stat_of (RejectedReply.auth_error auth_stat) = RejectStat.auth_error

abbrev reject_body : RejectedReply → List ℕ
reject_body (RejectedReply.rpc_mismatch low high) = to_be_bytes low ++ to_be_bytes high
reject_body (RejectedReply.auth_error auth_stat) = auth_stat_codec-Lawful.encode auth_stat

abbrev encode_reject : RejectedReply → List ℕ
encode_reject a = reject_stat_codec-Lawful.encode (reject_stat_of a) ++ reject_body a

pack_reject_lem :
    (a : RejectedReply) (out : List ℕ)
    → pack_rejected_reply a out ≡ ok (rejected_reply_size a, out ++ encode_reject a)
unfolding pack_rejected_reply rejected_reply_size pack_u32
pack_reject_lem (RejectedReply.rpc_mismatch low high) out =
    rw (reject_stat_codec-Lawful.pack_lem RejectStat.rpc_mismatch out tt) (
      ground (
        arith,
        reject_stat_size RejectStat.rpc_mismatch,
        append_assoc (out ++ reject_stat_codec-Lawful.encode RejectStat.rpc_mismatch)
            (to_be_bytes low) (to_be_bytes high),
        append_assoc out (reject_stat_codec-Lawful.encode RejectStat.rpc_mismatch)
            (to_be_bytes low ++ to_be_bytes high),
      ))
pack_reject_lem (RejectedReply.auth_error auth_stat) out =
    let e = reject_stat_codec-Lawful.encode RejectStat.auth_error in
    rw (reject_stat_codec-Lawful.pack_lem RejectStat.auth_error out tt) (
      rw (auth_stat_codec-Lawful.pack_lem auth_stat (out ++ e) tt) (
        ground (
          arith,
          reject_stat_size RejectStat.auth_error,
          auth_stat_size auth_stat,
          append_assoc out e (auth_stat_codec-Lawful.encode auth_stat),
        )))

rejected_reply_size_lem :
    (a : RejectedReply)
    → (length (reject_body a) + 4 ≡ rejected_reply_size a) × (rejected_reply_size a % 4 ≡ 0)
unfolding rejected_reply_size to_be_bytes auth_stat_codec simple_enum_codec
rejected_reply_size_lem (RejectedReply.rpc_mismatch low high) = ground arith
rejected_reply_size_lem (RejectedReply.auth_error auth_stat) =
    (omega (arith, auth_stat_codec-Lawful.length_lem auth_stat tt), refl)

unpack_reject_body_lem :
    (a : RejectedReply) (rest : List ℕ)
    → IsRejectedReply a
    → unpack_reject_body (reject_stat_of a) (reject_body a ++ rest)
      ≡ ok (a, rejected_reply_size a - 4, rest)
unfolding unpack_reject_body rejected_reply_size auth_stat_codec simple_enum_codec
unpack_reject_body_lem (RejectedReply.rpc_mismatch low high) rest h =
    rw (append_assoc (to_be_bytes low) (to_be_bytes high) rest) (
      rw (unpack_u32-to_be_bytes low (to_be_bytes high ++ rest) h.0)
        (rw (unpack_u32-to_be_bytes high rest h.1)))
unpack_reject_body_lem (RejectedReply.auth_error auth_stat) rest h =
    rw (auth_stat_codec-Lawful.unpack_lem auth_stat rest tt)

pub rejected_reply_codec-Lawful : Lawful rejected_reply_codec IsRejectedReply
unfolding unpack_rejected_reply rejected_reply_size reject_stat_codec simple_enum_codec
rejected_reply_codec-Lawful = record {
  encode = encode_reject;
  pack_lem = λ a out h. pack_reject_lem a out;
  length_lem = λ a h. omega (
    arith,
    reject_stat_codec-Lawful.length_lem (reject_stat_of a) tt,
    (rejected_reply_size_lem a).0,
    length-append {0} (reject_stat_codec-Lawful.encode (reject_stat_of a)) (reject_body a),
  );
  aligned = λ a h. (rejected_reply_size_lem a).1;
  unpack_lem = λ a rest h.
      rw (append_assoc (reject_stat_codec-Lawful.encode (reject_stat_of a)) (reject_body a) rest) (
        rw (reject_stat_codec-Lawful.unpack_lem (reject_stat_of a) (reject_body a ++ rest) tt)
          (rw (unpack_reject_body_lem a rest h) (ground (arith, (rejected_reply_size_lem a).0))));
}
