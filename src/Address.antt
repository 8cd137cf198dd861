-- ===== src/Address.antt =====
-- src/DirectPlay8Address.hpp and src/DirectPlay8Address.cpp: a DirectPlay address, which is a list of named
-- components and some user data behind a COM interface.
pub mod Component
pub mod Object
pub mod Lookup
mod Layout
pub mod Access
pub mod Host
mod Provider
mod Copies
mod Tests
