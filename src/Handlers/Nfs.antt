-- ===== src/Handlers/Nfs.antt =====
-- crates/nfs3_server/src/nfs_handlers.rs, a file for the procedures that read, one for those that write,
-- one for those that change the names in directories, and one for directory listings.
pub mod Common
pub mod Read
pub mod Write
pub mod Names
pub mod Entries
pub mod Listing
pub mod Effects
