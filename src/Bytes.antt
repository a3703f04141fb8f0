-- ===== src/Bytes.antt =====
-- wtransport-proto/src/bytes.rs: the two traits by which frames, headers and settings are read and
-- written, and the sources and sinks that implement them.
pub mod Reader
pub mod Writer
pub mod Buffer
pub mod Slice
pub mod Vec
pub mod Async
pub mod Tests
