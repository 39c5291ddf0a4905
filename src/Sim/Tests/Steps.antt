-- ===== src/Sim/Tests/Steps.antt =====
-- A small core and a reference, driven by the simulator.
use riscv64_cpu.Base.{
  ℕ, ◌+◌, ◌*◌, ◌/◌, ◌%◌, ◌≤◌, ◌≡◌, refl, [], if◌then◌else◌, ◌==◌, leb, none, true, some, ◌↔◌, ◌⊎◌,
}
use riscv64_cpu.Base.Run.{Run, done}
use riscv64_cpu.Sim.Config.{kconfig}
use riscv64_cpu.Sim.State.{stop, CpuState, Commit}
use riscv64_cpu.Sim.Npc.{
  Dut, World, settled, instr_mem_read, read_regfile, read_csrfile, execute, wait_commit,
  npc_single_cycle, half_cycle, cycles,
}
use riscv64_cpu.Sim.Memory.{zero_mem, pmem_read, host_read}
use riscv64_cpu.Sim.Difftest.{
  IsReference, Reference, checkcsrs, checkregs, is_special_instr, check_gprs, is_mmio_address,
  gpr_differs,
}
use riscv64_cpu.Sim.Trace.Ring.{empty_ring}
use riscv64_cpu.Sim.Dpi.{dpi_instr_mem_read, dpi_read_regfile, dpi_read_csrfile}
use riscv64_cpu.Sim.Difftest.Checks.{Reports, checkregs-Reports, checkcsrs-none}
use riscv64_cpu.Sim.Decode.{get_opcode}
use riscv64_cpu.Sim.Npc.Cycle.{wait_commit_ends}
use riscv64_cpu.Sim.Difftest.Special.{ReadsTimer, AccessesMmio, is_special_instr_iff}
use riscv64_cpu.Base.Run.Ensures.{Ensures}

-- The registers of a reference that takes them over and steps four bytes on.
abbrev spike : Reference
spike = record {
  State = CpuState;
  difftest_exec = λ n s. record s { pc = s.pc + 4 * n };
  regcpy_to_ref = λ cpu s. cpu;
  regcpy_to_dut = λ s. s;
}

spike-IsReference : IsReference spike
spike-IsReference = record { copied = λ cpu s. record { pc = refl; gpr = λ i h. refl } }

abbrev at_pc : ℕ → CpuState
at_pc p = record { gpr = λ i. 0; pc = p; csr = λ i. 0 }

-- A core that counts its rising edges and commits at every second one. The second commit is
-- an `ebreak` if `last` says so.
abbrev toy : ℕ → Dut
toy last = record {
  D = ℕ;
  set_clk = λ level n. n + level;
  set_rst = λ level n. n;
  eval =
      λ n. read_regfile 1 (read_csrfile 2 (instr_mem_read (0x80000000 + 4 * n) (λ w. settled n)));
  cur_pc = λ n. 0x80000000 + n / 2 * 4;
  commit = λ n. n % 2;
  commit_info = λ n. record {
    pc = 0x80000000 + n / 2 * 4;
    next_pc = 0x80000004 + n / 2 * 4;
    instr = if n == 3 then last else 0x13;
    mem_addr = 0;
    mem_rdata = 0;
    mem_wdata = 0;
  };
  array = λ n p i. 0;
}

abbrev start : (last : ℕ) → World kconfig (toy last) spike
start last = record {
  host = record {
    pmem = zero_mem;
    console = [];
    sim_state = record { state = stop; halt_pc = 0; halt_ret = 0 };
    reg_ptr = 0;
    csr_ptr = 0;
  };
  dut = 0;
  cpu = at_pc 0;
  sim_clk_count = 0;
  sim_instr_count = 0;
  sim_time = 0;
  ring = empty_ring;
  log = [];
  ref = at_pc 0x80000000;
}

module _ (last : ℕ) where
  -- The world in which a run ends.
  abbrev after : Run (World kconfig (toy last) spike) → World kconfig (toy last) spike
  after (done w) = w
  after r = start last

abbrev nop : ℕ
nop = 0x13

abbrev ended : World kconfig (toy nop) spike
ended = after nop (execute kconfig (toy nop) spike 5 2 (start nop))

abbrev first_commit : World kconfig (toy 0x13) spike
first_commit = after nop (wait_commit kconfig (toy nop) spike 3 (start nop))

one_cycle : cycles kconfig (toy nop) spike 1 (start nop) ≡ done first_commit
unfolding cycles wait_commit npc_single_cycle half_cycle dpi_instr_mem_read dpi_read_regfile
    dpi_read_csrfile pmem_read host_read
one_cycle = refl

commits_one : (first_commit.dut % 2) ≡ 1
unfolding cycles wait_commit npc_single_cycle half_cycle dpi_instr_mem_read dpi_read_regfile
    dpi_read_csrfile pmem_read host_read
commits_one = refl

wait_commit_ends_example :
    (j : ℕ) × (v : World kconfig (toy nop) spike) × (j ≤ 1)
    × (cycles kconfig (toy nop) spike j (start nop) ≡ done v)
    × (wait_commit kconfig (toy nop) spike 2 (start nop) ≡ done v)
    × (v.dut % 2 ≡ 1)
wait_commit_ends_example =
    wait_commit_ends kconfig (toy nop) spike 1 (start nop) first_commit one_cycle commits_one

-- A core whose next commit is an `ebreak`, in the state after it.
abbrev broken : World kconfig (toy 0x00100073) spike
broken = record (start 0x00100073) { dut = 3 }

abbrev broken_next : World kconfig (toy 0x00100073) spike
broken_next = after 0x00100073 (npc_single_cycle kconfig (toy 0x00100073) spike broken)

abbrev addi : Commit
addi = record {
  pc = 0x80000000;
  next_pc = 0x80000004;
  instr = nop;
  mem_addr = 0;
  mem_rdata = 0;
  mem_wdata = 0;
}

-- A byte load from the UART.
abbrev uart_load : Commit
uart_load = record addi { instr = 0x00050503; mem_addr = 0x10000005 }

uart_load_special : is_special_instr uart_load ≡ true
unfolding is_special_instr get_opcode is_mmio_address
uart_load_special = refl

-- Registers of which the first to differ is number 3.
abbrev other_gprs : CpuState
other_gprs = record (at_pc 0x80000004) { gpr = λ i. if leb 3 i then 1 else 0; csr = λ i. 7 }

finds_third : checkregs (at_pc 0x80000004) other_gprs 0x80000004 ≡ some (gpr_differs 3)
unfolding checkregs check_gprs
finds_third = refl

checkregs-Reports_example :
    Reports
      (at_pc 0x80000004)
      other_gprs
      0x80000004
      (checkregs (at_pc 0x80000004) other_gprs 0x80000004)
checkregs-Reports_example = checkregs-Reports (at_pc 0x80000004) other_gprs 0x80000004

checkcsrs-none_example : checkcsrs (at_pc 0x80000004) other_gprs ≡ none
checkcsrs-none_example = checkcsrs-none (at_pc 0x80000004) other_gprs

is_special_instr_iff_example :
    (is_special_instr uart_load ≡ true) ↔ (ReadsTimer uart_load ⊎ AccessesMmio uart_load)
is_special_instr_iff_example = is_special_instr_iff uart_load
