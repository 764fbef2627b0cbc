-- ===== src/Protocol.antt =====
-- protocol.py: the binary framing between client and server.
pub mod Message
pub mod Codec
pub mod Roundtrip
pub mod Stream
mod Tests
