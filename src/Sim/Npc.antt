-- ===== src/Sim/Npc.antt =====
-- simulator/src/npc/npc.c and simulator/src/sim: the simulated core, which Verilator generates
-- from the Verilog under simulator/IP, and the loop that drives it. The options of Kconfig have
-- their defaults: difftest, waveform trace and all traces are on.
pub mod Cycle
pub mod Execute
pub mod Answer
pub mod Invariant
pub mod Progress
use riscv64_cpu.Base.{ℕ, zero, suc, ◌+◌, List, ◌∷◌, ◌==◌, if◌then◌else◌, Option}
use Prim.Native.String.{String}
use riscv64_cpu.Base.Words.{u64}
use riscv64_cpu.Base.Run.{Run, done, exit, fault, out_of_fuel, ◌>>=◌, ◌>>◌}
use riscv64_cpu.Sim.Config.{Config}
use riscv64_cpu.Sim.State.{Host, CpuState, Commit}
use riscv64_cpu.Sim.Dpi.{
  dpi_ebreak, dpi_read_regfile, dpi_read_csrfile, dpi_instr_mem_read, dpi_mem_read, dpi_mem_write,
}
use riscv64_cpu.Sim.Decode.{inst_ebreak}
use riscv64_cpu.Sim.Trace.Ring.{Ring, instr_itrace}
use riscv64_cpu.Sim.Trace.Special.{instr_special_trace}
use riscv64_cpu.Sim.Difftest.{Reference, difftest_step}

-- What one `eval` of the generated core does: it calls the functions of dpi.c in turn, uses what
-- they return, and settles in a state.
pub data Eval (D : Type 0) : Type 0 where
  settled : D → Eval D
  instr_mem_read : ℕ → (ℕ → Eval D) → Eval D
  mem_read : (addr len : ℕ) → (ℕ → Eval D) → Eval D
  mem_write : (addr v len : ℕ) → Eval D → Eval D
  ebreak : Eval D → Eval D
  read_regfile : ℕ → Eval D → Eval D
  read_csrfile : ℕ → Eval D → Eval D

-- The generated class `TOP_NAME`: its inputs, `eval`, its outputs, and the array at an address
-- that it gave out.
pub record Dut : Type 1 where
  pub D : Type 0
  pub set_clk : ℕ → D → D
  pub set_rst : ℕ → D → D
  pub eval : D → Eval D
  pub cur_pc : D → ℕ
  pub commit : D → ℕ
  pub commit_info : D → Commit
  pub array : D → ℕ → ℕ → ℕ

-- A traced instruction: the count, its address, the instruction, and its label if it has one.
pub record Traced : Type 0 where
  pub count : ℕ
  pub pc : ℕ
  pub instr : ℕ
  pub label : Option String

module _ (c : Config) (d : Dut) (r : Reference) where
  -- The simulator's globals, the core and the reference. `log` is the newest first.
  pub record World : Type 0 where
    pub host : Host
    pub dut : d.D
    pub cpu : CpuState
    pub sim_clk_count : ℕ
    pub sim_instr_count : ℕ
    pub sim_time : ℕ
    pub ring : Ring
    pub log : List Traced
    pub ref : r.State

  -- The calls of an `eval`, answered by dpi.c.
  unfoldable pub answer : Eval d.D → Host → Run (Host × d.D)
  answer (settled s) h = done (h, s)
  answer (instr_mem_read addr k) h = do w ← dpi_instr_mem_read c h.pmem addr; answer (k w) h
  answer (mem_read addr len k) h = do w ← dpi_mem_read c h.pmem addr len; answer (k w) h
  answer (mem_write addr v len k) h = do h' ← dpi_mem_write c h addr v len; answer k h'
  answer (ebreak k) h = answer k (dpi_ebreak h)
  answer (read_regfile datap k) h = answer k (dpi_read_regfile datap h)
  answer (read_csrfile datap k) h = answer k (dpi_read_csrfile datap h)

  -- `dut.clk = level; dut.eval(); m_trace->dump(sim_time++);`
  unfoldable pub half_cycle : ℕ → World → Run World
  unfolding answer
  half_cycle level w = do
    (h, s) ← answer (d.eval (d.set_clk level w.dut)) w.host
    done (record w { host = h; dut = s; sim_time = u64 (w.sim_time + 1) })

  -- `npc_single_cycle`
  unfoldable pub npc_single_cycle : World → Run World
  npc_single_cycle w = do
    w1 ← half_cycle 0 w
    w2 ← half_cycle 1 w1
    done (record w2 { sim_clk_count = u64 (w2.sim_clk_count + 1) })

  -- The cycles of `npc_reset`, and `npc_reset`.
  unfoldable pub cycles : ℕ → World → Run World
  cycles zero w = done w
  cycles (suc n) w = do w1 ← npc_single_cycle w; cycles n w1

  unfoldable pub npc_reset : ℕ → World → Run World
  npc_reset n w = do
    w1 ← cycles n (record w { dut = d.set_rst 1 w.dut })
    done (record w1 { dut = d.set_rst 0 w1.dut })

  -- `update_cpu_state` copies through the pointers that the core gave; both must be set.
  unfoldable pub update_cpu_state : World → Run World
  update_cpu_state w =
      if w.host.reg_ptr == 0
      then fault
      else if w.host.csr_ptr == 0
      then fault
      else done (record w {
        cpu = record {
          gpr = d.array w.dut w.host.reg_ptr;
          pc = d.cur_pc w.dut;
          csr = d.array w.dut w.host.csr_ptr;
        };
      })

  -- `npc_init`
  unfoldable pub npc_init : World → Run World
  npc_init w = do
    w1 ← npc_reset 1 w
    w2 ← update_cpu_state w1
    if d.cur_pc w2.dut == 0x80000000 then done w2 else exit 1

  -- `sim_exit` runs one more cycle and leaves by `exit(1)`.
  unfoldable pub sim_exit : World → Run World
  sim_exit w = do npc_single_cycle w; exit 1

  unfoldable pub check_ebreak : Commit → World → Run World
  check_ebreak commit w = if commit.instr == inst_ebreak then sim_exit w else done w

  -- `while (dut.commit != 1) npc_single_cycle();`
  unfoldable pub wait_commit : ℕ → World → Run World
  wait_commit zero w = out_of_fuel
  wait_commit (suc fuel) w =
      let rest = npc_single_cycle w >>= wait_commit fuel in
      if d.commit w.dut == 1 then done w else rest

  -- `instr_trace_dispatch`: the log, the special trace and the ring.
  unfoldable pub instr_trace_dispatch : (pc instr count : ℕ) → World → World
  instr_trace_dispatch pc instr count w = record w {
    log =
        record { count = count; pc = pc; instr = instr; label = instr_special_trace instr } ∷ w.log;
    ring = instr_itrace pc instr w.ring;
  }

  -- One round of the loop of `execute`.
  unfoldable pub execute_one : ℕ → World → Run World
  execute_one fuel w = do
    w1 ← wait_commit fuel w
    let commit = d.commit_info w1.dut
    check_ebreak commit w1
    w2 ← npc_single_cycle w1
    w3 ← update_cpu_state w2
    let count = u64 (w3.sim_instr_count + 1)
    let w4 =
        instr_trace_dispatch commit.pc commit.instr count (record w3 { sim_instr_count = count })
    (cpu, s) ← difftest_step r commit w4.cpu w4.ref
    done (record w4 { cpu = cpu; ref = s })

  -- `execute(n)`; `cpu_exec` calls it between two readings of the clock.
  unfoldable pub execute : ℕ → ℕ → World → Run World
  execute fuel zero w = done w
  execute fuel (suc n) w = execute_one fuel w >>= execute fuel n
