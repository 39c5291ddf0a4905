-- ===== src/Sim/State.antt =====
-- The simulator's global variables: those of src/sim_state.c, src/sim/cpu.c, src/sim/exec.c and
-- src/memory/memory.c, and the types of include/riscv and include/sim_state.h.
use riscv64_cpu.Base.{ℕ, List, ◌&&◌, ◌||◌, Bool, not, ◌==◌}
use riscv64_cpu.Base.Words.{u32}
use riscv64_cpu.Base.Bytes.{Mem}

-- `CPU_state`. The arrays are functions of their index, 32 registers and 4096 CSRs long.
pub record CpuState : Type 0 where
  pub gpr : ℕ → ℕ
  pub pc : ℕ
  pub csr : ℕ → ℕ

-- `commit_t`.
pub record Commit : Type 0 where
  pub pc : ℕ
  pub next_pc : ℕ
  pub instr : ℕ
  pub mem_addr : ℕ
  pub mem_rdata : ℕ
  pub mem_wdata : ℕ

-- The states of the simulator, `enum { SIM_RUNNING, … }`.
pub data Phase : Type 0 where
  running stop end_ abort quit : Phase

-- `SIMState`: `halt_pc` and `halt_ret` are `u32`.
pub record SimState : Type 0 where
  pub state : Phase
  pub halt_pc : ℕ
  pub halt_ret : ℕ

-- `console` holds the bytes given to `putchar`, the newest first. A pointer is 0 when it is NULL.
pub record Host : Type 0 where
  pub pmem : Mem
  pub console : List ℕ
  pub sim_state : SimState
  pub reg_ptr : ℕ
  pub csr_ptr : ℕ

-- `set_sim_state`: the arguments are cut to the fields' 32 bits.
unfoldable pub set_sim_state : Phase → ℕ → ℕ → SimState
set_sim_state state pc halt_ret = record {
  state = state;
  halt_pc = u32 pc;
  halt_ret = u32 halt_ret;
}

abbrev pub is_end : Phase → Bool
is_end end_ = Bool.true
is_end _ = Bool.false

abbrev pub is_quit : Phase → Bool
is_quit quit = Bool.true
is_quit _ = Bool.false

-- `is_exit_status_bad`
pub is_exit_status_bad : SimState → Bool
is_exit_status_bad s = not ((is_end s.state && (s.halt_ret == 0)) || is_quit s.state)
