-- ===== src/Am.antt =====
-- The abstract machine: for the core (abstract-machine/am/src/riscv/npc), and for other targets.
mod Tests
pub mod Ioe
pub mod Cte
pub mod Native
pub mod Ports
pub mod X86
