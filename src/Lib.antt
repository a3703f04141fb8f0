-- ===== src/Lib.antt =====
-- A model of wtransport, a WebTransport library over HTTP/3 and QUIC: how its bytes are read and
-- written, and how the two ends of a connection set up sessions and their streams.
--
-- The parts, from the bottom up, with the files that model them:
--   * `VarInt`: wtransport-proto/src/varint.rs, integers below 2 ^ 62.
--   * `Ids`: wtransport-proto/src/ids.rs, the ids of streams and sessions and the quarter stream ids.
--   * `ErrorCode`, `H3Error`: wtransport-proto/src/error.rs, and `H3Error` of wtransport/src/error.rs.
--   * `Bytes`: wtransport-proto/src/bytes.rs. The traits `BytesReader` and `BytesWriter` are the
--     records of `Bytes/Reader` and `Bytes/Writer`, with their contracts `ReaderLaws` and
--     `WriterLaws`; `Bytes/Buffer`, `Bytes/Slice` and `Bytes/Vec` implement them. `Bytes/Async` is
--     the asynchronous part: the futures `GetBuffer`, `GetVarint`, `PutBuffer` and `PutVarint` with
--     their polls, `Bytes/Async/Await` polls them until they are ready, `Bytes/Async/Chain` is the
--     body of an `async fn`, and `Source` and `Sink` are the contracts of `AsyncRead` and `AsyncWrite`.
--   * `Frame`, `StreamHeader`: wtransport-proto/src/frame.rs and wtransport-proto/src/stream.rs, which
--     read and write through those traits and know no implementation but the buffer; `Frame/Async` and
--     `StreamHeader/Async` are their `read_async` and `write_async`.
--   * `Datagram`, `Datagram/App`: wtransport-proto/src/datagram.rs and wtransport/src/datagram.rs.
--   * `Settings`: wtransport-proto/src/settings.rs, read from a frame and written to one.
--   * `Stream`: wtransport/src/engine/stream.rs, a QUIC stream by its kind and its stage. A file is named
--     for a kind and holds the methods of all its stages: `upgrade` is that of the raw stage,
--     `upgrade_wt` the one into a session, `into_raw` the method `raw`. `Stream/Poll` has the poll
--     functions, on those of `tokio`, which make a source and a sink. `Stream/Errors` has the errors,
--     and `Stream/Connected` joins the two ends of a stream.
--   * `Headers`: wtransport-proto/src/headers.rs. `Session`: wtransport/src/engine/session.rs, the
--     request for a session, its answer and the confirmation.
--   * `Worker`: wtransport/src/engine/worker.rs. `Worker/Run` is the loop of `run`: a turn is a branch
--     of its `select!` that is ready, or the end of a task that it spawned, and `turns` takes them in
--     any order. `Worker/Accept` takes and routes the streams of the peer, `Worker/Streams` handles
--     the control and QPACK streams, `Worker/Requests` the requests; `Worker/Reaches` has the states
--     of the control and QPACK streams alone. `Worker/Local` is the control stream of this side and
--     the worker's handle. What an `await` of these returns is an argument, where the stream is not
--     modelled.
--   * `ConnectionError`: wtransport/src/error.rs. `Engine`: wtransport/src/engine/mod.rs, what a
--     connection offers to the layer above it; `Engine/State` is the engine with its channels, and
--     the methods that receive from them, with the permits that spawned tasks hold.
--   * `Connection`: wtransport/src/connection.rs, the two connection attempts and the methods of a
--     connection. A result comes with the calls of `close` that were made for it, the one of the
--     engine's `Drop` among them. `Stream/App`: wtransport/src/stream.rs, on the forwarding methods of
--     `Stream/Quic`.
--   * `Config`, `Certificate` and `Endpoint`: wtransport/src/config.rs, wtransport/src/tls.rs and
--     wtransport/src/endpoint.rs. `Config/Crypto` is what they use of `rustls` and `quinn`, and the
--     laws that the configurations rely on.
-- `Prelude` has the shared names, `Quic` what the code relies on and does not contain: the varint
-- encoding of RFC 9000, the `octets` crate, the streams of `quinn` and `ls_qpack`. A `Wire` module is the format that the code is held
-- to, a decoder of byte lists and the bytes of a value; a `Tests` module has runs.
--
-- How code becomes definitions: a struct is a record, an enum a data type. A function that may panic
-- returns an `Outcome`, where `panic` stands for a failed `assert!`, `expect`, index or
-- `unreachable!`; debug assertions count as assertions, as in a debug build. A method on `&mut self`
-- takes the state last and returns it with its result. `usize` has 64 bits: lengths are natural
-- numbers, and sums of them stay below 2 ^ 64. A shift left on `u64` wraps at 2 ^ 64. The operator
-- `?` is the bind of `Read` and `Write`. Bytes are natural numbers below 256.
--
-- Some loops run on fuel. `Settings::with_frame` has the length of the payload and one more, which is
-- enough as every turn consumes two bytes or more. `GetBuffer::poll` has the room of the buffer and
-- one more, as a turn that goes on fills a byte or more; the loops of `GetVarint`, `PutBuffer` and
-- `PutVarint` have what is left to read or write and one more. None answers that the fuel ran out. An
-- `await` has as fuel how often it is polled, and `none` stands for a body that is still pending: for
-- a source or a sink that waits fewer times it ends. `confirm` has a turn for each frame, and more
-- turns than the source has bytes are enough.
-- The `HashMap` of the settings and of the headers is a list of its entries. The order of iteration,
-- which is arbitrary in Rust, is the order of the list: the properties of settings hold of a list in
-- any order, while the settings of this side and the headers of a request or an answer stand in the
-- order in which the code inserts them.
--
-- The `octets` crate is the parameter `Octets`, a record of the operations that are called, and
-- `OctetsLaws` its documentation: a cursor that moves over a buffer. `Quic/Octets/Cursor` is a cursor
-- that keeps these laws, and the tests run on it.
--
-- The `ls_qpack` crate is the parameter `Qpack`, and the send and receive streams of `quinn` the
-- parameter `Quinn`, whose polls keep `Source` and `Sink` where a property needs it. That the bytes of
-- a stream arrive in order is a hypothesis of the properties of two ends. `Bytes/Async/Feed` has a
-- source and a sink that keep the contracts, for the tests. The slice of bytes as an `AsyncRead` is
-- no such source: it panics where it is shorter than the buffer and not empty.
--
-- Not modelled: the locks of the engine, and formatting but the names of the error codes. Whether a
-- channel has room, and whether it has a receiver, is an argument of the turn that reserves a place in
-- it; how many places the channels of HTTP/3 streams have free is counted in `Worker/Run/Places`, and
-- `Engine/Events` has the tasks that keep a channel open behind the worker. A future that
-- `select!` drops before it is ready is not modelled, so that a turn reads whole frames.
pub mod Prelude
pub mod Quic
pub mod VarInt
pub mod Ids
pub mod ErrorCode
pub mod Bytes
pub mod H3Error
pub mod Datagram
pub mod Frame
pub mod StreamHeader
pub mod Stream
pub mod Headers
pub mod Session
pub mod Settings
pub mod Worker
pub mod ConnectionError
pub mod Engine
pub mod Connection
pub mod Certificate
pub mod Config
pub mod Endpoint
