-- ===== src/Rpc/Counting.antt =====
-- The count that reading a message of crates/nfs3_types/src/rpc.rs returns against the bytes that it
-- takes.
use nfs.Prelude.{ℕ, zero, suc, ◌+◌, ok, ◌>>=◌, >>=-eq-ok, arith}
use nfs.Xdr.Codec.{Counts, Took-none, Took-trans, Took-eq}
use nfs.Xdr.Primitives.{unpack_u32}
use nfs.Xdr.Counting.{unpack_u32-Counts, unpack_opaque-Counts}
use nfs.Xdr.Counting.Derived.{
  no_fields-Counts, field-Counts, struct-Counts, simple_enum-Counts, complex_enum-Counts,
  unpack_with-Counts, chosen-Counts, none-Counts, CountsVariants,
}
use nfs.Rpc.Stats.{
  AcceptStat, accept_stat_codec, RejectStat, reject_stat_codec, auth_stat_codec, auth_flavor_codec,
}
use nfs.Rpc.Auth.{OpaqueAuth, opaque_auth_codec, CallBody, call_body_codec}
use nfs.Rpc.Replies.{
  rejected_reply_codec, AcceptStatData, unpack_accept_body, unpack_accept_stat_data, RejectedReply,
  unpack_reject_body, unpack_rejected_reply,
}
use nfs.Rpc.Messages.{
  AcceptedReply, accepted_reply_codec, msg_accepted, msg_denied, unpack_reply_body,
  reply_body_variants, reply_body_codec, call, reply, unpack_msg_body, msg_body_variants,
  msg_body_codec, RpcMsg, rpc_msg_codec,
}

opaque_auth-Counts : Counts opaque_auth_codec.unpack
unfolding opaque_auth_codec auth_flavor_codec
opaque_auth-Counts = struct-Counts {S = OpaqueAuth} _ _ _ (
    field-Counts _ _ (simple_enum-Counts _ _)
      (field-Counts _ _ unpack_opaque-Counts no_fields-Counts))

call_body-Counts : Counts call_body_codec.unpack
unfolding call_body_codec
call_body-Counts = struct-Counts {S = CallBody} _ _ _ (
    field-Counts _ _ unpack_u32-Counts (
      field-Counts _ _ unpack_u32-Counts (
        field-Counts _ _ unpack_u32-Counts (
          field-Counts _ _ unpack_u32-Counts (
            field-Counts _ _ opaque_auth-Counts
              (field-Counts _ _ opaque_auth-Counts no_fields-Counts))))))

-- Two words in a row, made into a value.
pair-Counts :
    {A : Type 0} (f : ℕ → ℕ → A)
    → Counts (λ r. unpack_u32 r >>= λ low.
        unpack_u32 low.2 >>= λ high. ok (f low.0 high.0, low.1 + high.1, high.2))
pair-Counts f input a n rest h =
    let (t, p, q) = >>=-eq-ok (unpack_u32 input) _ h in
    let (u, p', r) = >>=-eq-ok (unpack_u32 t.2) _ q in
    Took-eq
      (Took-trans (unpack_u32-Counts input t.0 t.1 t.2 p) (unpack_u32-Counts t.2 u.0 u.1 u.2 p'))
      (ground arith) (ground arith)

nothing-Counts : {A : Type 0} (a : A) → Counts (λ r. ok (a, 0, r))
nothing-Counts a input b n rest h = Took-eq (Took-none input) (ground arith) (ground arith)

accept_body-Counts : (stat : AcceptStat) → Counts (unpack_accept_body stat)
unfolding unpack_accept_body
accept_body-Counts AcceptStat.success = nothing-Counts _
accept_body-Counts AcceptStat.prog_unavail = nothing-Counts _
accept_body-Counts AcceptStat.prog_mismatch = pair-Counts AcceptStatData.prog_mismatch
accept_body-Counts AcceptStat.proc_unavail = nothing-Counts _
accept_body-Counts AcceptStat.garbage_args = nothing-Counts _
accept_body-Counts AcceptStat.system_err = nothing-Counts _

accept_stat_data-Counts : Counts unpack_accept_stat_data
unfolding unpack_accept_stat_data accept_stat_codec
accept_stat_data-Counts input a n rest h =
    let (t, p, q) = >>=-eq-ok (accept_stat_codec.unpack input) _ h in
    let (u, p', r) = >>=-eq-ok (unpack_accept_body t.0 t.2) _ q in
    Took-eq
      (Took-trans (simple_enum-Counts _ _ input t.0 t.1 t.2 p)
        (accept_body-Counts t.0 t.2 u.0 u.1 u.2 p'))
      (ground arith) (ground arith)

reject_body-Counts : (stat : RejectStat) → Counts (unpack_reject_body stat)
unfolding unpack_reject_body auth_stat_codec
reject_body-Counts RejectStat.rpc_mismatch = pair-Counts RejectedReply.rpc_mismatch
reject_body-Counts RejectStat.auth_error =
    unpack_with-Counts auth_stat_codec RejectedReply.auth_error (simple_enum-Counts _ _)

rejected_reply-Counts : Counts unpack_rejected_reply
unfolding unpack_rejected_reply reject_stat_codec
rejected_reply-Counts input a n rest h =
    let (t, p, q) = >>=-eq-ok (reject_stat_codec.unpack input) _ h in
    let (u, p', r) = >>=-eq-ok (unpack_reject_body t.0 t.2) _ q in
    Took-eq
      (Took-trans (simple_enum-Counts _ _ input t.0 t.1 t.2 p)
        (reject_body-Counts t.0 t.2 u.0 u.1 u.2 p'))
      (ground arith) (ground arith)

accepted_reply-Counts : Counts accepted_reply_codec.unpack
unfolding accepted_reply_codec
accepted_reply-Counts = struct-Counts {S = AcceptedReply} _ _ _ (
    field-Counts _ _ opaque_auth-Counts (field-Counts _ _ accept_stat_data-Counts no_fields-Counts))

reply_body-variants : CountsVariants reply_body_variants
unfolding unpack_reply_body
reply_body-variants zero unpack e =
    chosen-Counts e (unpack_with-Counts accepted_reply_codec msg_accepted accepted_reply-Counts)
reply_body-variants (suc zero) unpack e =
    chosen-Counts e (unpack_with-Counts rejected_reply_codec msg_denied rejected_reply-Counts)
reply_body-variants (suc (suc tag)) unpack e = none-Counts e

reply_body-Counts : Counts reply_body_codec.unpack
unfolding reply_body_codec
reply_body-Counts = complex_enum-Counts reply_body_variants reply_body-variants

msg_body-variants : CountsVariants msg_body_variants
unfolding unpack_msg_body
msg_body-variants zero unpack e =
    chosen-Counts e (unpack_with-Counts call_body_codec call call_body-Counts)
msg_body-variants (suc zero) unpack e =
    chosen-Counts e (unpack_with-Counts reply_body_codec reply reply_body-Counts)
msg_body-variants (suc (suc tag)) unpack e = none-Counts e

msg_body-Counts : Counts msg_body_codec.unpack
unfolding msg_body_codec
msg_body-Counts = complex_enum-Counts msg_body_variants msg_body-variants

-- Whatever bytes a message is read from: the count that is reported is the number of bytes taken
-- from the front of the input, and the rest is what follows them.
pub rpc_msg-Counts : Counts rpc_msg_codec.unpack
unfolding rpc_msg_codec
rpc_msg-Counts =
    struct-Counts {S = RpcMsg} _ _ _
      (field-Counts _ _ unpack_u32-Counts (field-Counts _ _ msg_body-Counts no_fields-Counts))
