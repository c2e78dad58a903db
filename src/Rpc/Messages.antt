-- ===== src/Rpc/Messages.antt =====
-- `accepted_reply`, `reply_body`, `msg_body` and `rpc_msg` of crates/nfs3_types/src/rpc.rs.
use nfs.Prelude.{ℕ, zero, suc, Option, none, some, List, Result}
use nfs.Xdr.Codec.{Codec, Error}
use nfs.Xdr.Primitives.{u32_codec}
use nfs.Xdr.Derive.{no_fields, ◌&◌, struct_codec, Variants, unpack_with, complex_enum_codec}
use nfs.Rpc.Auth.{OpaqueAuth, opaque_auth_codec, CallBody, call_body_codec}
use nfs.Rpc.Replies.{AcceptStatData, accept_stat_data_codec, RejectedReply, rejected_reply_codec}

pub record AcceptedReply : Type 0 where
  pub verf : OpaqueAuth
  pub reply_data : AcceptStatData

unfoldable pub accepted_reply_codec : Codec AcceptedReply
accepted_reply_codec =
    struct_codec (opaque_auth_codec & accept_stat_data_codec & no_fields)
      (λ r. (r.verf, (r.reply_data, tt))) (λ f. record { verf = f.0; reply_data = f.1.0 })

pub data ReplyBody : Type 0 where
  msg_accepted : AcceptedReply → ReplyBody
  msg_denied : RejectedReply → ReplyBody

unfoldable pub reply_body_value : ReplyBody → ℕ
reply_body_value (msg_accepted r) = 0
reply_body_value (msg_denied r) = 1

unfoldable pub reply_body_size : ReplyBody → ℕ
reply_body_size (msg_accepted r) = accepted_reply_codec.packed_size r
reply_body_size (msg_denied r) = rejected_reply_codec.packed_size r

unfoldable pub pack_reply_body : ReplyBody → List ℕ → Result (ℕ × List ℕ) Error
pack_reply_body (msg_accepted r) w = accepted_reply_codec.pack r w
pack_reply_body (msg_denied r) w = rejected_reply_codec.pack r w

unfoldable pub unpack_reply_body : ℕ → Option (List ℕ → Result (ReplyBody × ℕ × List ℕ) Error)
unpack_reply_body zero = some (unpack_with accepted_reply_codec msg_accepted)
unpack_reply_body (suc zero) = some (unpack_with rejected_reply_codec msg_denied)
unpack_reply_body _ = none

abbrev pub reply_body_variants : Variants ReplyBody
reply_body_variants = record {
  xdr_value = reply_body_value;
  value_size = reply_body_size;
  pack_value = pack_reply_body;
  unpack_variant = unpack_reply_body;
}

unfoldable pub reply_body_codec : Codec ReplyBody
reply_body_codec = complex_enum_codec reply_body_variants

pub data MsgBody : Type 0 where
  call : CallBody → MsgBody
  reply : ReplyBody → MsgBody

unfoldable pub msg_body_value : MsgBody → ℕ
msg_body_value (call b) = 0
msg_body_value (reply b) = 1

unfoldable pub msg_body_size : MsgBody → ℕ
msg_body_size (call b) = call_body_codec.packed_size b
msg_body_size (reply b) = reply_body_codec.packed_size b

unfoldable pub pack_msg_body : MsgBody → List ℕ → Result (ℕ × List ℕ) Error
pack_msg_body (call b) w = call_body_codec.pack b w
pack_msg_body (reply b) w = reply_body_codec.pack b w

unfoldable pub unpack_msg_body : ℕ → Option (List ℕ → Result (MsgBody × ℕ × List ℕ) Error)
unpack_msg_body zero = some (unpack_with call_body_codec call)
unpack_msg_body (suc zero) = some (unpack_with reply_body_codec reply)
unpack_msg_body _ = none

abbrev pub msg_body_variants : Variants MsgBody
msg_body_variants = record {
  xdr_value = msg_body_value;
  value_size = msg_body_size;
  pack_value = pack_msg_body;
  unpack_variant = unpack_msg_body;
}

unfoldable pub msg_body_codec : Codec MsgBody
msg_body_codec = complex_enum_codec msg_body_variants

pub record RpcMsg : Type 0 where
  pub xid : ℕ
  pub body : MsgBody

unfoldable pub rpc_msg_codec : Codec RpcMsg
rpc_msg_codec =
    struct_codec (u32_codec & msg_body_codec & no_fields) (λ m. (m.xid, (m.body, tt)))
      (λ f. record { xid = f.0; body = f.1.0 })
