-- ===== src/Lib.antt =====
-- A model of nfs3, an NFSv3 server and client in Rust, and what is proved of it.
--
-- The program. crates/nfs3_types holds the types of the protocols and the XDR codec, with the traits
-- `Pack` and `Unpack`; crates/nfs3_macros derives both traits for structs and enums. The server,
-- crates/nfs3_server, reads RPC messages in fragments, keeps a tracker of transactions that refuses
-- retransmissions while the original is handled, and hands the calls to a virtual file system, such
-- as the in-memory file system.
--
-- The model.
--   Prelude: names of the libraries, tests on native numbers, lists, and `Result` with its bind.
--   Xdr/Codec: `Pack` and `Unpack` as one record, `Codec`; `Lawful` is what an implementation
--     promises: packing appends as many bytes as `packed_size` says, a whole number of words, and
--     unpacking reads them back. `Counts` says that a reader reports the bytes that it takes.
--   Xdr/Util, Primitives, Opaque, Chain, Chain/Bounded: crates/nfs3_types/src/xdr_codec, with util.rs,
--     primitives.rs and void.rs, opaque.rs and list.rs in this order.
--   Xdr/Derive: the implementations that crates/nfs3_macros/src/lib.rs generates, one combinator for
--     each shape of type. Each derived codec of the model is such a combinator on its fields.
--   Xdr/RoundTrip and Xdr/Counting: `Lawful` and `Counts` for all of these; Xdr/Counting/Fuel has the loop
--     that unpacks a list as a relation without a bound on its rounds.
--   Rpc: crates/nfs3_types/src/rpc.rs, with the fragment header in Rpc/Fragment, and the codecs that
--     are written by hand in Rpc/Replies.
--   Nfs3: crates/nfs3_types/src/nfs3.rs. The types that the procedures share are in Attributes and Data,
--     their arguments and results in Args, Resok (with System and Listing) and Resfail, and NFS_PROGRAM in Procedures.
--   Mount, Portmap: crates/nfs3_types/src/mount.rs and portmap.rs.
--   Tracker: crates/nfs3_server/src/transaction_tracker.rs. Tracker/Client is `Transaction` and
--     `ClientTransactions`, Tracker/Registry is `TransactionTracker` and `TransactionLock`. The steps
--     of requests, the cleaner and finished requests, in any order, are a relation on worlds in
--     Registry/Exclusion.
--   MemFs: crates/nfs3_server/src/memfs/mod.rs. MemFs/Entry is `Dir`, `File` and `Entry`, MemFs/Store
--     and MemFs/Rename are `Fs`, MemFs/Service is `MemFs`. MemFs/WellFormed is the invariant that the
--     map of entries and the sets of handles in the directories fit together, and MemFs/Service has the
--     same with the counter of handles: Stored and Create for new entries, Change for the operations on
--     old ones, Panics for sizes that no vector has, Reachable for what `MemFs::new` makes of a configuration and calls one after the other.
--     MemFs/Served is `MemFs` as a file system of the server, with its iterator and `MemFs::new`.
--     MemFs/Config: crates/nfs3_server/src/memfs/config.rs. MemFs/Rename has the invariant through `rename`.
--   Vfs/Handle: crates/nfs3_server/src/vfs/handle.rs, the handles that clients see.
--   Vfs/Action: what a future does to the state of the server when it runs to its end.
--   Vfs/FileSystem: the traits of crates/nfs3_server/src/vfs/mod.rs, as a record of actions on a state that
--     the procedures take as an argument, and the iterators. Vfs/Adapters: the read-only adapter.
--   Handlers: crates/nfs3_server/src/nfs_handlers.rs and nfs_ext.rs; Handlers/Context is context.rs there.
--     Handlers/Nfs has the procedures that read in Read, those that write in Write and Names, and the listings of
--     directories in Listing with their list of entries in Entries. Handlers/Nfs/Effects says what each
--     procedure does to the state, from what the operations of the file system do.
--   Server/Messages: crates/nfs3_server/src/rpcwire/messages.rs, and the fragments of rpcwire.rs.
--   Server/Programs: `handle` of rpcwire.rs, mount_handlers.rs, portmap_handlers.rs and `handle_nfs`, with
--     what they use of Rust's strings in Server/Text.
--   Server/Dispatch: `handle_rpc_message` of rpcwire.rs, from the bytes of a call to its reply, with the
--     lock of its transaction.
--   Examples: the theorems at concrete inputs.
--
-- Conventions. Numbers are natural numbers, with the wrap-around of a counter written out; `usize`
-- has 64 bits, and a vector has fewer than 2^63 bytes; that memory runs out is not modelled. A panic
-- is `none`, or a failure of its own where there are statuses too. A hash map is a function to
-- `Option`; a hash set is a list without repetitions, in the order of its iterator. The time is an
-- argument of what reads the clock. A mutex or a lock is held for the whole of an operation, which
-- is therefore one step. A panic under a lock poisons it, so that later operations panic; the model
-- does not keep that, and goes on from the state that the panic leaves. A writer is a buffer in
-- memory, which does not fail. A call is handled as one step as well: the tasks that the server
-- spawns for calls at the same time do not take turns within a call.
--
-- Fuel. The loop that unpacks a list takes the length of the input as its number of rounds, the loops
-- of READDIR and READDIRPLUS the number of bytes that the client allows and one more, and the reader of
-- fragments and the walk of rename to the root take theirs as an argument; theorems say when these are
-- enough. Every other loop is structural recursion.
--
-- Not modelled: sockets and tasks, logging, the command line, the mirror of a host file system,
-- and the client. `Cleaner` is a step that may happen at any time.
pub mod Prelude
pub mod Xdr
pub mod Rpc
pub mod Nfs3
pub mod Tracker
pub mod MemFs
pub mod Vfs
pub mod Mount
pub mod Portmap
pub mod Handlers
pub mod Server
pub mod Examples
