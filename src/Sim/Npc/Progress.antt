-- ===== src/Sim/Npc/Progress.antt =====
-- The loop of `execute` makes progress.
use riscv64_cpu.Base.{suc, false, ℕ, ◌≡◌, ◌≢◌, ◌≤◌}
use riscv64_cpu.Base.Run.{done}
use riscv64_cpu.Sim.Config.{Config}
use riscv64_cpu.Sim.Decode.{inst_ebreak}
use riscv64_cpu.Sim.Difftest.{Reference, is_special_instr}
use riscv64_cpu.Sim.Difftest.Checks.{Agree}
use riscv64_cpu.Sim.Npc.{Dut, World, npc_single_cycle, execute_one, cycles}
use riscv64_cpu.Sim.Npc.Execute.{with_cpu}

module _ (c : Config) (d : Dut) (r : Reference) where
  -- What a core that commits, and a reference that follows it, do from the worlds of `Live` on:
  -- within `k` cycles there is a commit; the committed instruction is no `ebreak`, the next cycle
  -- ends, the core has given its registers, and after an ordinary instruction the reference agrees.
  pub record Lively (k : ℕ) (Live : World c d r → Type 0) : Type 0 where
    pub commits :
        (w : World c d r)
        → Live w
        → (j : ℕ) × (v : World c d r) × (j ≤ k) × (cycles c d r j w ≡ done v) × (d.commit v.dut ≡ 1)
    pub no_ebreak :
        (w v : World c d r) (j : ℕ)
        → Live w
        → cycles c d r j w ≡ done v
        → d.commit v.dut ≡ 1
        → (d.commit_info v.dut).instr ≢ inst_ebreak
    pub cycle :
        (w v : World c d r) (j : ℕ)
        → Live w
        → cycles c d r j w ≡ done v
        → d.commit v.dut ≡ 1
        → (u : World c d r) × (npc_single_cycle c d r v ≡ done u)
          × (u.host.reg_ptr ≢ 0)
          × (u.host.csr_ptr ≢ 0)
          × (is_special_instr (d.commit_info v.dut) ≡ false
              → Agree
                  (r.regcpy_to_dut (r.difftest_exec 1 u.ref))
                  (with_cpu c d r u).cpu
                  (d.commit_info v.dut).next_pc)
    pub stays : (w w' : World c d r) → Live w → execute_one c d r (suc k) w ≡ done w' → Live w'
