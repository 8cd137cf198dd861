-- ===== src/Peer.antt =====
-- DirectPlay8Peer of src/DirectPlay8Peer.hpp and src/DirectPlay8Peer.cpp, without its sockets and threads: `Stream` cuts a
-- TCP stream into packets, and `Sending` and `Datagrams` write them. `Session` has the state that handlers share, `Groups`
-- the group messages, `Acks` the acknowledgements, `Players` the messages to the application about players and connections,
-- `Closing` the end of all groups, and `Queries` and `Actions` methods that the application calls.
pub mod Stream
pub mod Sending
pub mod Session
pub mod Groups
pub mod Acks
pub mod Players
pub mod Datagrams
pub mod Queries
pub mod Closing
pub mod Actions
mod Samples
