-- ===== src/Nfs3.antt =====
-- Types of the NFS protocol, crates/nfs3_types/src/nfs3.rs.
pub mod Status
pub mod Attributes
pub mod Data
pub mod Args
pub mod Resok
pub mod Resfail
pub mod Procedures
pub mod RoundTrip
