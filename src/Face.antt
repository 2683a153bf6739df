-- ===== src/Face.antt =====
-- transport/face.rs: one port shared by the sender's and the receiver's end of a link.
pub mod Ring
pub mod Queue
pub mod Port
pub mod Demux
pub mod Routes
pub mod Blocked
pub mod Ends
pub mod Returns
mod Tests
