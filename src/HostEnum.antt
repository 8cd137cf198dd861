-- ===== src/HostEnum.antt =====
-- src/HostEnumerator.hpp and src/HostEnumerator.cpp: the search for hosts, with its requests and replies.
pub mod Setup
pub mod Loop
pub mod Response
mod Timing
mod Messages
mod Target
mod Tests
