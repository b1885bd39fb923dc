-- ===== src/Lib.antt =====
-- xyzen-relay: remote-desktop signalling, relaying and video fan-out (Rust, below crates/).
--
-- The parts of the program and the files that model them:
--
-- - Codec.antt: crates/proto/src/codec.rs, `RustDeskCodec`. A `BytesMut` is the list of its bytes.
--   `decode` is split into one round of its loop in each state (`decode_head`, `decode_body`): a round
--   in `Body` returns, and a round in `Head` returns or goes on to one in `Body`, so the loop needs no
--   fuel. Header arithmetic keeps its 32 bits.
-- - Stream/Nal.antt and Stream/Warmup.antt: crates/stream/src/main.rs, `classify_nal` and
--   `WarmupWindow` with `record` (here `record_frame`) and `snapshot`.
-- - Stream/Rooms.antt: the rest of that file, `room_for`, `handle_publisher` and `handle_viewer`. The
--   broadcast channel is a parameter, the record `Broadcast`, with the laws that the code relies on: a
--   new receiver has no backlog, and a frame that is sent joins every backlog that has room for it.
--   Stream/Rooms/Joining.antt has the runs in which a publisher and a joining viewer interleave.
-- - Stream/Shared.antt: the same rooms as objects at addresses, which the map and any number of sessions
--   share as `Arc<RoomState>`. A step is what one session does under one lock, and the sessions
--   interleave freely. `Channels` adds to `Broadcast` when a receiver is live, and that a channel with a
--   live receiver does not count none.
-- - Rendezvous/Registry.antt, Rendezvous/Audit.antt: crates/rendezvous/src/registry.rs and audit.rs.
-- - Rendezvous/Message.antt, Server.antt, Tcp.antt, Ws.antt: crates/rendezvous/src/server.rs. The
--   shared state is `World`; what is sent is recorded in its log, the newest first. The protobuf decoder
--   and the key that `HashMap::keys().next()` yields are parameters. Rendezvous/Accounting.antt runs
--   any sequence of events of the three transports. Rendezvous/Interleaved.antt takes `dispatch_punch`
--   apart into the look-up, the send and the entry, with steps of other handlers in between.
-- - Control/Errors.antt, Auth.antt, Ids.antt, Store.antt, Http.antt: crates/control/src/http.rs, ids.rs,
--   audit.rs and the schema in crates/control/migrations. The database is two lists of rows with one
--   operation for each SQL statement of the sources; which queries fail, the random words and the clock
--   are a parameter, `Env`. `HeaderValue::to_str`, UTF-8 and the JSON of an audit event are parameters.
--   The sixteen tries of `ids::fresh` are its fuel, as in the source.
-- - Relay.antt: crates/relay/src/main.rs, `pair_or_wait` with its two locks and the two listeners in any
--   interleaving; Relay/Pump.antt has the copying in one direction,
--   and Relay/Pump/Joined.antt both directions of `pump_ws_ws`.
-- - Windows/Annexb.antt, Windows/Nv12.antt, Windows/Encoder.antt: crates/win-capturer/src/encoder.rs. The
--   platform, Media Foundation, is the parameter `host`: what a call answers, given the calls before it.
--   `H264Encoder` and the calls made so far are the state of a monad, in which a call that fails ends the
--   operation. The loops of `avcc_to_annexb` have one round more than there are bytes for fuel, which is
--   enough (Windows/Annexb/Coded.antt). The loop of `drain` goes on for as long as the platform gives
--   output: one round more than there are samples is enough (Windows/Encoder/Drained.antt). A write or a
--   read out of range in `bgra_to_nv12` is `none`, for a panic.
-- - Windows/Publisher.antt, Windows/Publisher/Events.antt: crates/win-capturer/src/publisher.rs, in steps
--   of `start`, of the setters and of the capture thread, of which each has at most one lock, load, store
--   or send of what the threads share, so that a run is a list of events. The callback
--   `on_frame_arrived` is several steps too: the look at `SHUTDOWN`, the look at `needs_rebuild`, the
--   encoder (with the lock where the size changed), the lock of the sender, each send, and the store to
--   `SHUTDOWN` when the receiver is gone. What the platform and the encoder answer comes with the event.
--   Windows/Publisher/Callback.antt has the callback as one function, and
--   Windows/Publisher/Handler.antt the same with the encoder in it, for a picture that is its bytes.
--   Windows/Publisher/Getters.antt has the getters.
-- - Windows/Displays.antt: crates/win-capturer/src/display.rs, and how the capture thread turns an id
--   into a monitor. What the calls on a monitor answer is data.
-- - Mac.antt, Mac/Capture.antt, Mac/Listing.antt: crates/mac-capturer/src/lib.rs, with the functions of
--   crates/mac-capturer/swift/MacCapturer.swift behind them: the settings; the start and the choice of a
--   display; the list of displays through a text in a buffer, whose reader is a parameter.
-- - Capturer.antt: crates/capturer/src/main.rs, over a connection that takes so many messages.
-- - Pipeline.antt: no source of its own; frames in the form of the Windows encoder in a room.
-- - Prelude.antt and below: Boolean tests, lists, bits, association lists and signed integers that the
--   other modules share. Checks.antt and below: runs at concrete inputs.
--
-- The components meet at few places. The rendezvous server and the relay share only the address
-- that the former hands out; the server's audit events are what `ingest_audit` of the control plane
-- receives; the rooms use the warm-up window, which uses the classification. The Windows capturer and
-- the rooms share the form of a frame: eight bytes of time, a start code, and a unit (Pipeline.antt).
--
-- Not modelled: sockets, listeners, timers and task spawning; the start-up of the servers; the
-- generated protobuf code; what Swift does to encode a sample; the rates in the capturer's log, which
-- are floating point; poisoned locks outside the getters; build scripts, the web pages and scripts. A
-- clock counts whole microseconds, that of the capturer's log whole seconds. A `usize` length is a
-- natural number without a bound except where the source saturates or truncates.
pub mod Prelude
pub mod Codec
pub mod Stream
pub mod Rendezvous
pub mod Control
pub mod Relay
pub mod Windows
pub mod Mac
pub mod Capturer
pub mod Pipeline
pub mod Checks
