-- ===== src/Examples/Codecs.antt =====
-- The theorems about crates/nfs3_types and crates/nfs3_macros at concrete messages.
use nfs.Prelude.{ℕ, ◌^◌, ◌%◌, ◌≡◌, refl, List, [], ◌∷◌, ◌++◌, Result, ok, length, All, arith}
use nfs.Xdr.Codec.{Lawful, Took, Error}
use nfs.Xdr.Primitives.{IsU32, u32_codec, void_codec, unpack_u32, from_be_bytes}
use nfs.Xdr.Codec.{read_exact}
use nfs.Xdr.Chain.{list_codec, unpack_list}
use nfs.Xdr.Chain.Bounded
use nfs.Xdr.Chain.Bounded.{try_push}
use nfs.Xdr.Chain.Bounded.Exact.{Pushed, IsExact, new-IsExact, try_push-Pushed}
use nfs.Xdr.Derive.{◌&◌, struct_codec, simple_enum_codec, complex_enum_codec, find_variant}
use nfs.Xdr.RoundTrip.{u32_codec-Lawful, void_codec-Lawful, Anything}
use nfs.Xdr.RoundTrip.Vectors.{list_codec-Lawful}
use nfs.Xdr.Counting.{unpack_u32-Counts}
use nfs.Xdr.Counting.Fuel.{Ends, unpack_list-Ends}
use nfs.Nfs3.Attributes.{Fattr3, Nfstime3, nf3reg, fattr3_codec}
use nfs.Nfs3.RoundTrip.Wire.{joined, parts, fattr3_codec-eq-wire}
use nfs.Nfs3.Status.{nfs3_result_codec}
use nfs.Nfs3.RoundTrip.{IsFattr3, fattr3_codec-Lawful}
use nfs.Nfs3.RoundTrip.Results.{IsNfs3Result, nfs3_result_codec-Lawful}
use nfs.Rpc.Stats.{auth_null, auth_unix, reject_stat_codec}
use nfs.Rpc.Replies.{RejectedReply, unpack_rejected_reply, unpack_reject_body}
use nfs.Rpc.Messages.{
  RpcMsg, call, reply, msg_denied, rpc_msg_codec, msg_body_codec, unpack_msg_body, reply_body_codec,
  unpack_reply_body,
}
use nfs.Rpc.RoundTrip.Messages.{IsRpcMsg, rpc_msg-round_trip}
use nfs.Rpc.Counting.{rpc_msg-Counts}

list_codec-Lawful_example : Lawful (list_codec u32_codec) (All IsU32)
list_codec-Lawful_example = list_codec-Lawful u32_codec IsU32 u32_codec-Lawful

-- A list of one number, with one byte behind it.
abbrev one_number : List ℕ
one_number = 0 ∷ 0 ∷ 0 ∷ 1 ∷ 0 ∷ 0 ∷ 0 ∷ 7 ∷ 0 ∷ 0 ∷ 0 ∷ 0 ∷ 5 ∷ []

unpack_list_example :
    Ends u32_codec 0 one_number (unpack_list u32_codec one_number)
    × ((result : Result (List ℕ × ℕ × List ℕ) Error)
        → Ends u32_codec 0 one_number result
        → result ≡ unpack_list u32_codec one_number)
unpack_list_example = unpack_list-Ends u32_codec unpack_u32-Counts one_number

abbrev moment : Nfstime3
moment = record { seconds = 1700000000; nseconds = 5 }

abbrev attributes : Fattr3
attributes = record {
  type_ = nf3reg;
  mode = 420;
  nlink = 1;
  uid = 507;
  gid = 100;
  size = 2 ^ 40;
  used = 4096;
  rdev = record { specdata1 = 8; specdata2 = 1 };
  fsid = 3;
  fileid = 12;
  atime = moment;
  mtime = moment;
  ctime = moment;
}

attributes-IsFattr3 : IsFattr3 attributes
attributes-IsFattr3 = (
  tt,
  omega arith,
  omega arith,
  omega arith,
  omega arith,
  omega arith,
  omega arith,
  (omega arith, omega arith),
  omega arith,
  omega arith,
  (omega arith, omega arith),
  (omega arith, omega arith),
  (omega arith, omega arith),
)

attributes_example :
    (fattr3_codec.pack attributes (1 ∷ []) ≡ ok (84, (1 ∷ []) ++ joined (parts attributes)))
    × (fattr3_codec.packed_size attributes ≡ 84)
    × (length (joined (parts attributes)) ≡ 84)
    × (fattr3_codec.unpack (joined (parts attributes) ++ (9 ∷ [])) ≡ ok (attributes, 84, 9 ∷ []))
attributes_example = fattr3_codec-eq-wire attributes (1 ∷ []) (9 ∷ []) attributes-IsFattr3

nfs3_result_codec-Lawful_example :
    Lawful
      (nfs3_result_codec fattr3_codec void_codec)
      (IsNfs3Result fattr3_codec void_codec IsFattr3 Anything fattr3_codec-Lawful void_codec-Lawful)
nfs3_result_codec-Lawful_example =
    nfs3_result_codec-Lawful fattr3_codec void_codec IsFattr3 Anything fattr3_codec-Lawful
      void_codec-Lawful

-- A null call of the NFS program.
abbrev null_call : RpcMsg
null_call = record {
  xid = 1;
  body = call (record {
    rpcvers = 2;
    prog = 100003;
    vers = 3;
    proc = 0;
    cred = record { flavor = auth_unix; body = 1 ∷ 2 ∷ 3 ∷ [] };
    verf = record { flavor = auth_null; body = [] };
  });
}

null_call-IsRpcMsg : IsRpcMsg null_call
null_call-IsRpcMsg =
    (omega arith, (omega arith, omega arith, omega arith, omega arith, omega arith, omega arith))

rpc_msg_example :
    (bytes : List ℕ) × (rpc_msg_codec.pack null_call []
      ≡ ok (rpc_msg_codec.packed_size null_call, bytes))
    × (length bytes ≡ rpc_msg_codec.packed_size null_call)
    × (rpc_msg_codec.packed_size null_call % 4 ≡ 0)
    × (rpc_msg_codec.unpack (bytes ++ (9 ∷ []))
        ≡ ok (null_call, rpc_msg_codec.packed_size null_call, 9 ∷ []))
rpc_msg_example = rpc_msg-round_trip null_call (9 ∷ []) null_call-IsRpcMsg

-- A reply that denies version 2, with one byte behind it.
abbrev denial : RpcMsg
denial = record { xid = 1; body = reply (msg_denied (RejectedReply.rpc_mismatch 2 2)) }

abbrev denial_bytes : List ℕ
denial_bytes =
    0 ∷ 0 ∷ 0 ∷ 1 ∷ 0 ∷ 0 ∷ 0 ∷ 1 ∷ 0 ∷ 0 ∷ 0 ∷ 1 ∷ 0 ∷ 0 ∷ 0 ∷ 0 ∷ 0 ∷ 0 ∷ 0 ∷ 2 ∷ 0 ∷ 0 ∷ 0 ∷ 2
    ∷ 9 ∷ []

denial_read : rpc_msg_codec.unpack denial_bytes ≡ ok (denial, 24, 9 ∷ [])
unfolding rpc_msg_codec struct_codec ◌&◌ msg_body_codec complex_enum_codec unpack_msg_body
    reply_body_codec unpack_reply_body unpack_rejected_reply reject_stat_codec simple_enum_codec
    find_variant unpack_reject_body unpack_u32 read_exact from_be_bytes
denial_read = refl

rpc_msg_counts_example : Took denial_bytes (9 ∷ []) 24
rpc_msg_counts_example = rpc_msg-Counts denial_bytes denial 24 (9 ∷ []) denial_read

try_push_example :
    Pushed u32_codec 5
      (Bounded.new u32_codec 11)
      (try_push u32_codec 5 (Bounded.new u32_codec 11)).0
      (try_push u32_codec 5 (Bounded.new u32_codec 11)).1
    × IsExact u32_codec (try_push u32_codec 5 (Bounded.new u32_codec 11)).1
try_push_example = try_push-Pushed u32_codec 5 (Bounded.new u32_codec 11) (new-IsExact u32_codec 11)
