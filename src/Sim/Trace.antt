-- ===== src/Sim/Trace.antt =====
-- simulator/src/trace/instr_trace.c.
pub mod Pattern
pub mod Match
pub mod Special
pub mod Ring
pub mod Recent
pub mod Disjoint
