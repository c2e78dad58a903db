-- ===== src/Xdr.antt =====
-- The XDR codec of crates/nfs3_types/src/xdr_codec.
pub mod Codec
pub mod Util
pub mod Primitives
pub mod Opaque
pub mod Chain
pub mod Derive
pub mod RoundTrip
pub mod Counting
