-- ===== src/Sim/Tests.antt =====
-- The simulator's code at concrete inputs: tests, and the theorems applied.
mod Memories
mod Traces
mod Forever
mod Steps
mod Snapshots
