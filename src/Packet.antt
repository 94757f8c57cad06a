-- ===== src/Packet.antt =====
-- packet.h and packet.cpp: packet headers, views, encoding and decoding.
pub mod Types
pub mod Decode
pub mod Encode
pub mod Frame
pub mod Layout
pub mod Accept
pub mod RoundTrip
pub mod Vector
pub mod Iterator
pub mod Corruption
pub mod Bounds
