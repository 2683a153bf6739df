-- ===== src/Link.antt =====
-- src/tx.rs and src/rx.rs together: a sender and a receiver over two lossy channels.
pub mod Exchange
pub mod System
pub mod Channel
pub mod Phases
pub mod ExactlyOnce
pub mod Receiving
pub mod Sending
