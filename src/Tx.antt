-- ===== src/Tx.antt =====
-- src/tx.rs: the stop-and-wait sender.
pub mod State
pub mod Offer
pub mod Poll
pub mod Send
pub mod Valid
pub mod Outcome
pub mod Silence
pub mod Patience
