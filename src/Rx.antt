-- ===== src/Rx.antt =====
-- src/rx.rs: the stop-and-wait receiver.
pub mod State
pub mod Poll
pub mod Valid
pub mod Delivery
