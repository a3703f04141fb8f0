-- ===== src/Quic.antt =====
-- What the crates below this repository promise. `Quic/Encoding` is the variable-length integer of
-- RFC 9000, section 16, `Quic/Octets` the `octets` crate, which stands on it, `Quic/Streams` the
-- streams of `quinn`, and `Quic/Qpack` the `ls_qpack` crate.
pub mod Encoding
pub mod Octets
pub mod Streams
pub mod Qpack
