-- ===== src/Rpc/Replies.antt =====
-- `accept_stat_data` and `rejected_reply` of crates/nfs3_types/src/rpc.rs, whose codecs are written
-- by hand.
use nfs.Prelude.{ℕ, ◌+◌, List, Result, ok, ◌>>=◌}
use nfs.Xdr.Codec.{Codec, Error}
use nfs.Xdr.Primitives.{pack_u32, unpack_u32}
use nfs.Rpc.Stats.{
  AcceptStat, accept_stat_codec, RejectStat, reject_stat_codec, AuthStat, auth_stat_codec,
}

pub data AcceptStatData : Type 0 where
  success : AcceptStatData
  prog_unavail : AcceptStatData
  prog_mismatch : ℕ → ℕ → AcceptStatData
  proc_unavail : AcceptStatData
  garbage_args : AcceptStatData
  system_err : AcceptStatData

unfoldable pub accept_stat_data_size : AcceptStatData → ℕ
accept_stat_data_size (AcceptStatData.prog_mismatch low high) = 4 + 8
accept_stat_data_size _ = 4 + 0

unfoldable pub pack_accept_stat_data : AcceptStatData → List ℕ → Result (ℕ × List ℕ) Error
pack_accept_stat_data AcceptStatData.success w = accept_stat_codec.pack AcceptStat.success w
pack_accept_stat_data AcceptStatData.prog_unavail w =
    accept_stat_codec.pack AcceptStat.prog_unavail w
pack_accept_stat_data (AcceptStatData.prog_mismatch low high) w = do
  (len, w') ← accept_stat_codec.pack AcceptStat.prog_mismatch w
  (low_len, w'') ← pack_u32 low w'
  (high_len, w''') ← pack_u32 high w''
  ok (len + low_len + high_len, w''')
pack_accept_stat_data AcceptStatData.proc_unavail w =
    accept_stat_codec.pack AcceptStat.proc_unavail w
pack_accept_stat_data AcceptStatData.garbage_args w =
    accept_stat_codec.pack AcceptStat.garbage_args w
pack_accept_stat_data AcceptStatData.system_err w = accept_stat_codec.pack AcceptStat.system_err w

-- The `match accept_stat` of `unpack`.
unfoldable pub unpack_accept_body : AcceptStat → List ℕ → Result (AcceptStatData × ℕ × List ℕ) Error
unpack_accept_body AcceptStat.success r = ok (AcceptStatData.success, 0, r)
unpack_accept_body AcceptStat.prog_mismatch r = do
  (low, low_len, r') ← unpack_u32 r
  (high, high_len, r'') ← unpack_u32 r'
  ok (AcceptStatData.prog_mismatch low high, low_len + high_len, r'')
unpack_accept_body AcceptStat.prog_unavail r = ok (AcceptStatData.prog_unavail, 0, r)
unpack_accept_body AcceptStat.proc_unavail r = ok (AcceptStatData.proc_unavail, 0, r)
unpack_accept_body AcceptStat.garbage_args r = ok (AcceptStatData.garbage_args, 0, r)
unpack_accept_body AcceptStat.system_err r = ok (AcceptStatData.system_err, 0, r)

unfoldable pub unpack_accept_stat_data : List ℕ → Result (AcceptStatData × ℕ × List ℕ) Error
unpack_accept_stat_data r = do
  (accept_stat, len, r') ← accept_stat_codec.unpack r
  (body, body_len, r'') ← unpack_accept_body accept_stat r'
  ok (body, len + body_len, r'')

abbrev pub accept_stat_data_codec : Codec AcceptStatData
accept_stat_data_codec = record {
  packed_size = accept_stat_data_size;
  pack = pack_accept_stat_data;
  unpack = unpack_accept_stat_data;
}

pub data RejectedReply : Type 0 where
  rpc_mismatch : ℕ → ℕ → RejectedReply
  auth_error : AuthStat → RejectedReply

unfoldable pub rejected_reply_size : RejectedReply → ℕ
rejected_reply_size (RejectedReply.rpc_mismatch low high) = 4 + 8
rejected_reply_size (RejectedReply.auth_error auth_stat) = 4 + 4

unfoldable pub pack_rejected_reply : RejectedReply → List ℕ → Result (ℕ × List ℕ) Error
pack_rejected_reply (RejectedReply.rpc_mismatch low high) w = do
  (len, w') ← reject_stat_codec.pack RejectStat.rpc_mismatch w
  (low_len, w'') ← pack_u32 low w'
  (high_len, w''') ← pack_u32 high w''
  ok (len + low_len + high_len, w''')
pack_rejected_reply (RejectedReply.auth_error auth_stat) w = do
  (len, w') ← reject_stat_codec.pack RejectStat.auth_error w
  (auth_len, w'') ← auth_stat_codec.pack auth_stat w'
  ok (len + auth_len, w'')

-- The `match reject_stat` of `unpack`.
unfoldable pub unpack_reject_body : RejectStat → List ℕ → Result (RejectedReply × ℕ × List ℕ) Error
unpack_reject_body RejectStat.rpc_mismatch r = do
  (low, low_len, r') ← unpack_u32 r
  (high, high_len, r'') ← unpack_u32 r'
  ok (RejectedReply.rpc_mismatch low high, low_len + high_len, r'')
unpack_reject_body RejectStat.auth_error r = do
  (auth_stat, auth_stat_len, r') ← auth_stat_codec.unpack r
  ok (RejectedReply.auth_error auth_stat, auth_stat_len, r')

unfoldable pub unpack_rejected_reply : List ℕ → Result (RejectedReply × ℕ × List ℕ) Error
unpack_rejected_reply r = do
  (reject_stat, len, r') ← reject_stat_codec.unpack r
  (body, body_len, r'') ← unpack_reject_body reject_stat r'
  ok (body, len + body_len, r'')

abbrev pub rejected_reply_codec : Codec RejectedReply
rejected_reply_codec = record {
  packed_size = rejected_reply_size;
  pack = pack_rejected_reply;
  unpack = unpack_rejected_reply;
}
