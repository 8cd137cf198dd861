-- ===== src/Pool.antt =====
-- src/HandleHandlingPool.hpp and src/HandleHandlingPool.cpp: threads that wait for handles in blocks.
pub mod Vectors
pub mod State
mod Layout
mod Blocks
mod Moves
mod Spawn
mod Faults
mod Workers
mod Tests
