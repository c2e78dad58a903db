-- ===== src/Tracker.antt =====
-- The transaction tracker of crates/nfs3_server/src/transaction_tracker.rs.
pub mod Client
pub mod Registry
