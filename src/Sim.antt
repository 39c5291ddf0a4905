-- ===== src/Sim.antt =====
-- The simulator's own code, simulator/src and simulator/include.
pub mod Config
pub mod State
pub mod Memory
pub mod Dpi
pub mod Decode
pub mod Trace
pub mod Cpu
pub mod Difftest
pub mod Npc
pub mod Snapshot
pub mod Program
mod Tests
