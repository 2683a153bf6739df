-- ===== src/P2p.antt =====
-- The peer-to-peer layer, p2p/*.rs.
pub mod Peer
pub mod Config
pub mod Session
pub mod Table
pub mod Message
pub mod Fragmenter
pub mod Defragmenter
pub mod Fragments
mod MessageTests
mod Tests
