-- ===== src/Am/Ports.antt =====
-- The hardware behind the port instructions of x86.h and `rdtsc`: a state, what a read gives and
-- how each access changes the state. Nothing is assumed of it.
use riscv64_cpu.Base.{ℕ}

pub record Ports : Type 1 where
  pub D : Type 0
  pub inb : ℕ → D → ℕ × D
  pub inl : ℕ → D → ℕ × D
  pub outb : ℕ → ℕ → D → D
  pub outl : ℕ → ℕ → D → D
  pub rdtsc : D → ℕ × D
