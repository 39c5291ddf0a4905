-- ===== src/Sim/Difftest/Step.antt =====
-- `difftest_step` on each kind of instruction.
use riscv64_cpu.Base.{◌≡◌, true, sym}
use riscv64_cpu.Base.Run.{done}
use riscv64_cpu.Sim.State.{CpuState, Commit}
use riscv64_cpu.Sim.Difftest.{
  Reference, IsReference, display_diff_error, is_special_instr, difftest_step,
}
use riscv64_cpu.Sim.Difftest.Checks.{checkregs-none, checkcsrs-none}

module _ (r : Reference) (commit : Commit) (cpu : CpuState) (s : r.State) where
  -- A special instruction always passes: the core's registers are copied to the reference, with
  -- the committed next address as program counter.
  pub difftest_step_special :
      IsReference r
      → is_special_instr commit ≡ true
      → let cpu2 = record cpu { pc = commit.next_pc } in
        difftest_step r commit cpu s ≡ done (cpu2, r.regcpy_to_ref cpu2 (r.difftest_exec 1 s))
  unfolding difftest_step display_diff_error
  difftest_step_special law e =
      let cpu2 = record cpu { pc = commit.next_pc } in
      let s2 = r.regcpy_to_ref cpu2 (r.difftest_exec 1 s) in
      let same = law.copied cpu2 (r.difftest_exec 1 s) in
      rw (
        e,
        checkregs-none (r.regcpy_to_dut s2) cpu2 commit.next_pc (sym same.pc, same.gpr),
        checkcsrs-none (r.regcpy_to_dut s2) cpu2,
      )
