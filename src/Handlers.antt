-- ===== src/Handlers.antt =====
-- The handlers of crates/nfs3_server/src: what the server does for each procedure that a client calls.
pub mod Context
pub mod Nfs
