-- ===== src/Vfs.antt =====
-- The interface to file systems of crates/nfs3_server/src/vfs.
pub mod Action
pub mod Adapters
pub mod FileSystem
pub mod Handle
