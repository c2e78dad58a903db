-- ===== src/MemFs.antt =====
-- The in-memory file system of crates/nfs3_server/src/memfs/mod.rs.
pub mod Entry
pub mod Store
pub mod Rename
pub mod Service
pub mod FileData
pub mod Sets
pub mod WellFormed
pub mod Served
pub mod Config
