-- ===== src/Rpc/RoundTrip/Messages.antt =====
-- The contract `Lawful` for the codecs of `reply_body`, `msg_body` and `rpc_msg`.
use nfs.Prelude.{ℕ, List, [], length, ◌%◌, ◌++◌, ◌≡◌, ok, refl, arith}
use nfs.Xdr.Codec.{Lawful}
use nfs.Xdr.Primitives.{IsU32}
use nfs.Xdr.RoundTrip.{u32_codec-Lawful}
use nfs.Xdr.RoundTrip.Derived.{
  no_fields-Lawful, field-Lawful, struct_codec-Lawful, LawfulVariant, by_variant, value-Lawful,
  complex_enum_codec-Lawful, lawful_on,
}
use nfs.Rpc.Auth.{call_body_codec}
use nfs.Rpc.Replies.{rejected_reply_codec}
use nfs.Rpc.Messages.{
  AcceptedReply, accepted_reply_codec, ReplyBody, msg_accepted, msg_denied, reply_body_value,
  reply_body_size, pack_reply_body, unpack_reply_body, reply_body_variants, reply_body_codec,
  MsgBody, call, reply, msg_body_value, msg_body_size, pack_msg_body, unpack_msg_body,
  msg_body_variants, msg_body_codec, RpcMsg, rpc_msg_codec,
}
use nfs.Rpc.RoundTrip.{IsOpaqueAuth, opaque_auth_codec-Lawful, IsCallBody, call_body_codec-Lawful}
use nfs.Rpc.RoundTrip.Replies.{
  IsAcceptStatData, accept_stat_data_codec-Lawful, IsRejectedReply, rejected_reply_codec-Lawful,
}

abbrev pub IsAcceptedReply : AcceptedReply → Type 0
IsAcceptedReply r = IsOpaqueAuth r.verf × IsAcceptStatData r.reply_data

pub accepted_reply_codec-Lawful : Lawful accepted_reply_codec IsAcceptedReply
unfolding accepted_reply_codec
accepted_reply_codec-Lawful =
    lawful_on _ _ IsAcceptedReply
      (struct_codec-Lawful {S = AcceptedReply} _ _ _ _
        (field-Lawful _ _ _ _ opaque_auth_codec-Lawful
          (field-Lawful _ _ _ _ accept_stat_data_codec-Lawful no_fields-Lawful))
        (λ a i. a))
      (λ a h. (h.0, (h.1, tt)))

abbrev pub IsReplyBody : ReplyBody → Type 0
IsReplyBody (msg_accepted r) = IsAcceptedReply r
IsReplyBody (msg_denied r) = IsRejectedReply r

reply_body_variants-LawfulVariant :
    (b : ReplyBody) → LawfulVariant reply_body_variants b (IsReplyBody b)
unfolding reply_body_value reply_body_size pack_reply_body unpack_reply_body
reply_body_variants-LawfulVariant (msg_accepted r) =
    value-Lawful reply_body_variants accepted_reply_codec IsAcceptedReply msg_accepted r
      accepted_reply_codec-Lawful (omega arith) refl (λ out. refl) refl
reply_body_variants-LawfulVariant (msg_denied r) =
    value-Lawful reply_body_variants rejected_reply_codec IsRejectedReply msg_denied r
      rejected_reply_codec-Lawful (omega arith) refl (λ out. refl) refl

pub reply_body_codec-Lawful : Lawful reply_body_codec IsReplyBody
unfolding reply_body_codec
reply_body_codec-Lawful =
    complex_enum_codec-Lawful reply_body_variants IsReplyBody
      (by_variant _ _ reply_body_variants-LawfulVariant)

abbrev pub IsMsgBody : MsgBody → Type 0
IsMsgBody (call b) = IsCallBody b
IsMsgBody (reply b) = IsReplyBody b

msg_body_variants-LawfulVariant : (b : MsgBody) → LawfulVariant msg_body_variants b (IsMsgBody b)
unfolding msg_body_value msg_body_size pack_msg_body unpack_msg_body
msg_body_variants-LawfulVariant (call b) =
    value-Lawful msg_body_variants call_body_codec IsCallBody call b call_body_codec-Lawful
      (omega arith) refl (λ out. refl) refl
msg_body_variants-LawfulVariant (reply b) =
    value-Lawful msg_body_variants reply_body_codec IsReplyBody reply b reply_body_codec-Lawful
      (omega arith) refl (λ out. refl) refl

msg_body_codec-Lawful : Lawful msg_body_codec IsMsgBody
unfolding msg_body_codec
msg_body_codec-Lawful =
    complex_enum_codec-Lawful msg_body_variants IsMsgBody
      (by_variant _ _ msg_body_variants-LawfulVariant)

-- A message whose numbers fit 32 bits and whose credentials have lengths that do.
abbrev pub IsRpcMsg : RpcMsg → Type 0
IsRpcMsg m = IsU32 m.xid × IsMsgBody m.body

pub rpc_msg_codec-Lawful : Lawful rpc_msg_codec IsRpcMsg
unfolding rpc_msg_codec
rpc_msg_codec-Lawful =
    lawful_on _ _ IsRpcMsg
      (struct_codec-Lawful {S = RpcMsg} _ _ _ _
        (field-Lawful _ _ _ _ u32_codec-Lawful
          (field-Lawful _ _ _ _ msg_body_codec-Lawful no_fields-Lawful))
        (λ a i. a))
      (λ a h. (h.0, (h.1, tt)))

-- A message whose numbers fit 32 bits, and whose credentials have lengths that do, is packed into a
-- whole number of words, as many bytes as reported; and these, with anything behind them, are
-- unpacked into the same message, with the rest left over.
pub rpc_msg-round_trip :
    (m : RpcMsg) (rest : List ℕ)
    → IsRpcMsg m
    → (bytes : List ℕ) × (rpc_msg_codec.pack m [] ≡ ok (rpc_msg_codec.packed_size m, bytes))
      × (length bytes ≡ rpc_msg_codec.packed_size m)
      × (rpc_msg_codec.packed_size m % 4 ≡ 0)
      × (rpc_msg_codec.unpack (bytes ++ rest) ≡ ok (m, rpc_msg_codec.packed_size m, rest))
rpc_msg-round_trip m rest h = (
  rpc_msg_codec-Lawful.encode m,
  rpc_msg_codec-Lawful.pack_lem m [] h,
  rpc_msg_codec-Lawful.length_lem m h,
  rpc_msg_codec-Lawful.aligned m h,
  rpc_msg_codec-Lawful.unpack_lem m rest h,
)
