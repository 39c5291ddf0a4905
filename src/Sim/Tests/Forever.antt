-- ===== src/Sim/Tests/Forever.antt =====
-- A core that runs `j .` for ever, and a reference that does too.
use riscv64_cpu.Base.{[], ℕ, ◌+◌, ◌%◌}
use riscv64_cpu.Sim.Config.{kconfig}
use riscv64_cpu.Sim.State.{stop, CpuState}
use riscv64_cpu.Sim.Memory.{zero_mem}
use riscv64_cpu.Sim.Difftest.{Reference}
use riscv64_cpu.Sim.Trace.Ring.{empty_ring}
use riscv64_cpu.Sim.Npc.{Dut, World, settled, read_regfile, read_csrfile}
use riscv64_cpu.Base.Words.{u64}

abbrev in_place : CpuState
in_place = record { gpr = λ i. 0; pc = 0x80000000; csr = λ i. 0 }

abbrev spinning : Reference
spinning = record {
  State = CpuState;
  difftest_exec = λ n s. in_place;
  regcpy_to_ref = λ cpu s. cpu;
  regcpy_to_dut = λ s. s;
}

-- It commits at every second rising edge.
abbrev spinner : Dut
spinner = record {
  D = ℕ;
  set_clk = λ level n. n + level;
  set_rst = λ level n. n;
  eval = λ n. read_regfile 1 (read_csrfile 2 (settled (n % 2)));
  cur_pc = λ n. 0x80000000;
  commit = λ n. n % 2;
  commit_info = λ n. record {
    pc = 0x80000000;
    next_pc = 0x80000000;
    instr = 0x6f;
    mem_addr = 0;
    mem_rdata = 0;
    mem_wdata = 0;
  };
  array = λ n p i. 0;
}

abbrev W : Type 0
W = World kconfig spinner spinning

abbrev spin_start : W
spin_start = record {
  host = record {
    pmem = zero_mem;
    console = [];
    sim_state = record { state = stop; halt_pc = 0; halt_ret = 0 };
    reg_ptr = 0;
    csr_ptr = 0;
  };
  dut = 0;
  cpu = in_place;
  sim_clk_count = 0;
  sim_instr_count = 0;
  sim_time = 0;
  ring = empty_ring;
  log = [];
  ref = in_place;
}

abbrev next_world : W → W
next_world w = record w {
  host = record w.host { reg_ptr = 1; csr_ptr = 2 };
  dut = ((w.dut + 0) % 2 + 1) % 2;
  sim_clk_count = u64 (w.sim_clk_count + 1);
  sim_time = u64 (u64 (w.sim_time + 1) + 1);
}
