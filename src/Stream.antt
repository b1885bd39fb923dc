-- ===== src/Stream.antt =====
-- crates/stream/src/main.rs: the video fan-out, from the classification of a frame up to the rooms.
pub mod Nal
pub mod Warmup
pub mod Rooms
pub mod Shared
