-- ===== src/Rendezvous.antt =====
-- crates/rendezvous: the peer registry and the three transports that share it.
pub mod Message
pub mod Audit
pub mod Registry
pub mod Server
pub mod Tcp
pub mod Ws
pub mod Laws
pub mod Exchange
pub mod Cleanup
pub mod Accounting
pub mod Interleaved
