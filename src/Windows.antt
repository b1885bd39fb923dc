-- ===== src/Windows.antt =====
-- crates/win-capturer: what the Windows capturer computes between the calls of the platform.
pub mod Annexb
pub mod Nv12
pub mod Encoder
pub mod Publisher
pub mod Displays
