-- ===== src/Packet.antt =====
-- src/packet.hpp and src/packet.cpp: the TLV packets that peers exchange. `Bytes` has the memory
-- layout, `Serialiser` and `Deserialiser` the two classes, and the other modules their theorems.
pub mod Bytes
pub mod Serialiser
pub mod Deserialiser
pub mod Wire
pub mod Scan
pub mod RoundTrip
pub mod Chunks
pub mod Safety
pub mod Getters
pub mod Wrap
mod Tests
