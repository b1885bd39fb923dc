-- ===== src/Checks.antt =====
-- Concrete runs of the model, after the tests in the sources, and the theorems at concrete inputs.
mod Framing
mod Warmup
mod Exchange
mod Interleaving
mod Relaying
mod Rooms
mod Sharing
mod Service
mod Capture
mod Encoding
mod Publishing
mod Handling
mod Settings
mod Forwards
