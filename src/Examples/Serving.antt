-- ===== src/Examples/Serving.antt =====
-- The theorems about the dispatch of crates/nfs3_server/src, at a small server.
use nfs.Prelude.{ℕ, ◌≡◌, ◌++◌, refl, some, List, [], ◌∷◌, ok, arith}
use nfs.Xdr.Primitives.{to_be_bytes, to_be_bytes_u64}
use nfs.Xdr.Derive.{struct_codec}
use nfs.Vfs.Action.{pure}
use nfs.MemFs.Service.{MemFs}
use nfs.MemFs.Served.{served}
use nfs.Vfs.Action.{Moves, pure-Moves}
use nfs.Vfs.FileSystem.{split}
use nfs.Handlers.Nfs.Effects.{Reads, Writes}
use nfs.Server.Dispatch.Requests.{OnState, handle_rpc_message-Moves, handle_rpc_message-read_only}
use nfs.Server.Dispatch.ReadOnly.{walk-Moves, adapter-Reads}
use nfs.Vfs.Adapters.{read_only_adapter}
use nfs.Rpc.Stats.{auth_null}
use nfs.Server.Messages.{IncomingRpcMessage, try_from, no_reply}
use nfs.Server.Programs.{Shared}
use nfs.Server.Dispatch.{authenticated, handle_rpc_message}
use nfs.Server.Dispatch.Locks.{handle_rpc_message-IsSound, handle_rpc_message-retransmission}
use nfs.MemFs.Served.ReadOnly.{read_only_memfs-unchanged, served-Reads}
use nfs.Tracker.Client
use nfs.Tracker.Client.{ClientTransactions, started, add_transaction}
use nfs.Tracker.Registry.{
  TransactionTracker, TransactionLock, start_transaction, tracker_new, insert,
}
use nfs.Tracker.Registry.Exclusion.{World, IsSound, start, here, next}
use nfs.Tracker.Registry.AtMostOnce.{initial, initial-IsSound, Reach-IsSound}
use nfs.Examples.Server.{midnight, memfs, Context, context}

-- A call of the procedure NULL with the xid 7.
abbrev words : List ℕ → List ℕ
words [] = []
words (w ∷ ws) = to_be_bytes w ++ words ws

abbrev null_call : List ℕ
null_call = words (7 ∷ 0 ∷ 2 ∷ 100003 ∷ 3 ∷ 0 ∷ 0 ∷ 0 ∷ 0 ∷ 0 ∷ [])

abbrev null_message : IncomingRpcMessage
null_message = record {
  xid = 7;
  body = record {
    rpcvers = 2;
    prog = 100003;
    vers = 3;
    proc = 0;
    cred = record { flavor = auth_null; body = [] };
    verf = record { flavor = auth_null; body = [] };
  };
  bytes = null_call;
  message_start = 40;
}

null_call-read : try_from null_call ≡ ok null_message
unfolding try_from nfs.Rpc.Messages.rpc_msg_codec struct_codec nfs.Xdr.Derive.◌&◌
    nfs.Xdr.Primitives.unpack_u32 nfs.Xdr.Codec.read_exact to_be_bytes
    nfs.Rpc.Messages.msg_body_codec nfs.Xdr.Derive.complex_enum_codec
    nfs.Rpc.Messages.unpack_msg_body nfs.Xdr.Primitives.from_be_bytes nfs.Rpc.Auth.call_body_codec
    nfs.Rpc.Auth.opaque_auth_codec nfs.Rpc.Stats.auth_flavor_codec nfs.Xdr.Derive.simple_enum_codec
    nfs.Xdr.Derive.find_variant nfs.Xdr.Opaque.unpack_opaque nfs.Xdr.Primitives.unpack_padding
    nfs.Xdr.Util.get_padding
null_call-read = refl

null_call-authenticated : authenticated context null_message.body.cred ≡ ok context
unfolding authenticated
null_call-authenticated = refl

abbrev shared : Shared MemFs
shared = record { vfs = memfs; mount_signals = [] }

abbrev same_lock : TransactionLock
same_lock = record { client_addr = "10.0.0.1:700"; xid = 7 }

abbrev busy_client : ClientTransactions
busy_client = record {
  transactions = started 7 ∷ [];
  last_active = 100;
  active_transactions = 1;
  max_active_transactions = 2;
  trim_limit = 4;
}

abbrev busy : World
busy = record {
  tracker = record (tracker_new 60 2 4) {
    transactions = insert "10.0.0.1:700" busy_client (tracker_new 60 2 4).transactions;
  };
  locks = same_lock ∷ [];
}

busy-started :
    start_transaction "10.0.0.1:700" 7 100 (tracker_new 60 2 4) ≡ some (ok same_lock, busy.tracker)
unfolding start_transaction Client.new add_transaction tracker_new
busy-started = refl

busy-IsSound : IsSound busy
busy-IsSound =
    Reach-IsSound (initial-IsSound 60 2 4 (omega arith) (omega arith))
      (next here (start (initial 60 2 4) "10.0.0.1:700" 7 100 same_lock busy.tracker busy-started))

retransmitted_call_example :
    (t : TransactionTracker) × (handle_rpc_message context 150 160 null_call
        (record { shared = shared; tracker = busy.tracker })
      ≡ (some (ok no_reply), record { shared = shared; tracker = t }))
retransmitted_call_example =
    handle_rpc_message-retransmission context 150 160 busy busy-IsSound shared null_call
      null_message context null_call-read refl null_call-authenticated (omega arith)

locks_example : IsSound (record {
  tracker =
      (handle_rpc_message context 150 160 null_call
        (record { shared = shared; tracker = busy.tracker })).1.tracker;
  locks = busy.locks;
})
locks_example = handle_rpc_message-IsSound context 150 160 busy busy-IsSound shared null_call

unchanged_example :
    (handle_rpc_message
      (record context { vfs = read_only_adapter (served midnight 9 memfs) })
      150
      160
      null_call
      (record { shared = shared; tracker = busy.tracker })).1.shared.vfs
    ≡ memfs
unchanged_example =
    read_only_memfs-unchanged midnight 9 memfs context 150 160 null_call
      (record { shared = shared; tracker = busy.tracker })

-- The file system behind the read-only adapter.
abbrev guarded_context : Context
guarded_context = record context { vfs = read_only_adapter (served midnight 9 memfs) }

abbrev IsUnchanged : MemFs → Type 0
IsUnchanged m = m ≡ memfs

keep : {A : Type 0} (a : A) → Moves IsUnchanged IsUnchanged (pure a)
keep a = pure-Moves IsUnchanged IsUnchanged a (λ s h. h)

guarded-Reads : Reads guarded_context.vfs IsUnchanged
guarded-Reads =
    adapter-Reads (served midnight 9 memfs) IsUnchanged (served-Reads midnight 9 memfs IsUnchanged)

guarded-Writes : Writes guarded_context.vfs IsUnchanged IsUnchanged
guarded-Writes = record {
  setattr_writes = λ id attr. keep _;
  write_writes = λ id offset bytes. keep _;
  create_writes = λ id name attr. keep _;
  create_exclusive_writes = λ id name verf. keep _;
  mkdir_writes = λ id name. keep _;
  remove_writes = λ id name. keep _;
  rename_writes = λ from from_name to to_name. keep _;
  symlink_writes = λ id name target attr. keep _;
}

guarded-by_path :
    (path : List ℕ) → Moves IsUnchanged IsUnchanged (guarded_context.vfs.lookup_by_path path)
guarded-by_path path =
    walk-Moves IsUnchanged (served midnight 9 memfs).lookup guarded-Reads.lookup_reads
      (served midnight 9 memfs).root_dir (split path)

keeps_example :
    Moves
      (OnState IsUnchanged)
      (OnState IsUnchanged)
      (handle_rpc_message guarded_context 150 160 null_call)
keeps_example =
    handle_rpc_message-Moves guarded_context 150 160 IsUnchanged IsUnchanged (λ s h. h)
      guarded-by_path guarded-Reads guarded-Reads guarded-Writes null_call

read_only_example :
    Moves
      (OnState IsUnchanged)
      (OnState IsUnchanged)
      (handle_rpc_message guarded_context 150 160 null_call)
read_only_example =
    handle_rpc_message-read_only guarded_context 150 160 IsUnchanged refl guarded-by_path
      guarded-Reads null_call
