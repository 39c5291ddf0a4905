-- ===== src/Sim/Npc/Invariant.antt =====
-- What every operation of the simulator keeps of its state.
use riscv64_cpu.Base.{◌<◌, ◌^◌}
use riscv64_cpu.Base.Run.Ensures.{Ensures}
use riscv64_cpu.Sim.Config.{Config}
use riscv64_cpu.Sim.Difftest.{Reference}
use riscv64_cpu.Sim.Npc.{Dut, World}
use riscv64_cpu.Sim.Npc.Answer.{IsHost}

-- The state of the simulator: bytes in the memory and on the console, counters of 64 bits, and the
-- ring's next place within its 30.
pub record IsWorld (c : Config) (d : Dut) (r : Reference) (w : World c d r) : Type 0 where
  pub host : IsHost w.host
  pub clk : w.sim_clk_count < 2 ^ 64
  pub instr : w.sim_instr_count < 2 ^ 64
  pub time : w.sim_time < 2 ^ 64
  pub ptr : w.ring.ptr < 30
