-- ===== src/Server/Messages.antt =====
-- crates/nfs3_server/src/rpcwire/messages.rs: fragments, requests and replies.
pub mod Fragments
use nfs.Prelude.{
  ◌%◌, ℕ, zero, suc, ◌+◌, ◌^◌, Bool, true, false, Option, none, some, List, [], ◌++◌, Result, ok,
  err, ◌>>=◌, length, drop, ltb, if◌then◌else◌,
}
use nfs.Xdr.Codec.{Codec, Error, read_exact}
use nfs.Xdr.Primitives.{void_codec}
use nfs.Rpc.Fragment.{from_buf, fragment_length, eof, new, into_xdr_buf}
use nfs.Rpc.Auth.{CallBody, default}
use nfs.Rpc.Replies.{AcceptStatData, RejectedReply}
use nfs.Rpc.Messages.{RpcMsg, rpc_msg_codec, MsgBody, call, reply, msg_accepted, msg_denied}
use nfs.Vfs.Action.{Action, pure, panic}

-- `IncompleteRpcMessage::recv`: the collected bytes with those of the next fragment, whether it is the
-- last one, and the input behind it.
unfoldable pub recv : List ℕ → List ℕ → Result ((Bool × List ℕ) × List ℕ) Error
recv collected input = do
  (header_buf, input') ← read_exact 4 input
  let header = from_buf header_buf
  (fragment, rest) ← read_exact (fragment_length header) input'
  ok ((eof header, collected ++ fragment), rest)

-- `SocketMessageHandler::read`, looped until a message is complete. A round takes four bytes at least,
-- so the length of the input bounds the rounds.
unfoldable pub read_message : ℕ → List ℕ → List ℕ → Result (List ℕ × List ℕ) Error
unfolding recv
read_message zero collected input = err Error.io
read_message (suc fuel) collected input = do
  ((is_last, message), rest) ← recv collected input
  elim is_last [ true ↦ ok (message, rest) | false ↦ read_message fuel message rest ]

-- `write_fragment` of crates/nfs3_server/src/rpcwire.rs: what is written to the socket. `none` is the
-- panic of its assertion or of the header's.
unfoldable pub write_fragment : List ℕ → Option (List ℕ)
write_fragment buf =
    if ltb (length buf) (2 ^ 31)
    then (elim (new (length buf % 2 ^ 32) true) [
      | none ↦ none
      | some header ↦ some (into_xdr_buf header ++ buf)
    ])
    else none

pub record IncomingRpcMessage : Type 0 where
  pub xid : ℕ
  pub body : CallBody
  pub bytes : List ℕ
  pub message_start : ℕ

-- The errors that become `anyhow::Error`.
pub data WireError : Type 0 where
  xdr : Error → WireError
  got_reply : WireError

abbrev pub incoming : List ℕ → RpcMsg → ℕ → MsgBody → Result IncomingRpcMessage WireError
incoming packed rpc pos (call body) =
    ok (record { xid = rpc.xid; body = body; bytes = packed; message_start = pos })
incoming packed rpc pos (reply body) = err got_reply

abbrev pub or_xdr : {A : Type 0} → Result A Error → Result A WireError
or_xdr (ok a) = ok a
or_xdr (err e) = err (xdr e)

-- `TryFrom<CompleteRpcMessage>`
unfoldable pub try_from : List ℕ → Result IncomingRpcMessage WireError
try_from packed = do
  (rpc, pos, rest) ← or_xdr (rpc_msg_codec.unpack packed)
  incoming packed rpc pos rpc.body

-- `take_data`: what a cursor reads from the start of the arguments on. Each request is asked once.
abbrev pub take_data : IncomingRpcMessage → List ℕ
take_data m = drop m.message_start m.bytes

pub data HandleResult : Type 0 where
  reply_with : List ℕ → HandleResult
  no_reply : HandleResult

abbrev pub Handled : Type 0
Handled = Result HandleResult WireError

module _ {T : Type 0} (c : Codec T) where
  -- The two `pack`s after each other.
  unfoldable pub pack_both : RpcMsg → T → Result (List ℕ) Error
  pack_both rpc message = do
    (_, out) ← rpc_msg_codec.pack rpc []
    (_, out') ← c.pack message out
    ok out'

  abbrev pub replied : Result (List ℕ) Error → Handled
  replied (ok bytes) = ok (reply_with bytes)
  replied (err e) = err (xdr e)

  -- `pack`, with the panic of its `checked_add`.
  unfoldable pub pack : {S : Type 0} → RpcMsg → T → Action S Handled
  pack rpc message =
      if ltb (rpc_msg_codec.packed_size rpc + c.packed_size message) (2 ^ 64)
      then pure (replied (pack_both rpc message))
      else panic

abbrev pub accepted : ℕ → AcceptStatData → RpcMsg
accepted xid stat = record {
  xid = xid;
  body = reply (msg_accepted (record { verf = default; reply_data = stat }));
}

unfoldable pub into_success_reply :
    {S T : Type 0} → Codec T → IncomingRpcMessage → T → Action S Handled
into_success_reply c m message = pack c (accepted m.xid AcceptStatData.success) message

abbrev pub denied : ℕ → RpcMsg
denied xid = record { xid = xid; body = reply (msg_denied (RejectedReply.rpc_mismatch 2 2)) }

unfoldable pub into_rpc_mismatch : {S : Type 0} → IncomingRpcMessage → Action S Handled
into_rpc_mismatch m = pack void_codec (denied m.xid) tt

unfoldable pub into_error_reply :
    {S : Type 0} → IncomingRpcMessage → AcceptStatData → Action S Handled
into_error_reply m stat = pack void_codec (accepted m.xid stat) tt
