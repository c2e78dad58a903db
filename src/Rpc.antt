-- ===== src/Rpc.antt =====
-- The RPC messages of crates/nfs3_types/src/rpc.rs.
pub mod Fragment
pub mod Stats
pub mod Auth
pub mod Replies
pub mod Messages
pub mod RoundTrip
pub mod Counting
