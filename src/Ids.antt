-- ===== src/Ids.antt =====
-- wtransport-proto/src/ids.rs: the three kinds of id, a module each.
pub mod StreamId
pub mod SessionId
pub mod QStreamId
pub mod Laws
pub mod Tests
