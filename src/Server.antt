-- ===== src/Server.antt =====
-- crates/nfs3_server/src/rpcwire.rs and its messages, with the handlers of the three programs: from the
-- bytes of a request to the bytes of the reply.
pub mod Messages
pub mod Text
pub mod Programs
pub mod Dispatch
