-- ===== src/Klib.antt =====
-- The C library for programs that run on the core, abstract-machine/klib.
mod Tests
pub mod Memory
pub mod Copy
pub mod Compare
pub mod Number
pub mod Format
pub mod Stdlib
