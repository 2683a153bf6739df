-- ===== src/Protocol.antt =====
-- src/protocol: the checksum, the frame codec, the sequence counter and the two frame buffers.
pub mod Bytes
pub mod Crc
pub mod Sequence
pub mod Frame
pub mod OutBuf
pub mod Tests
pub mod Assembler
