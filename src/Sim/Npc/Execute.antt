-- ===== src/Sim/Npc/Execute.antt =====
-- The loop of `execute`.
use mathlib.Core.Path.{subst}
use riscv64_cpu.Base.{
  ℕ, zero, suc, ◌+◌, ◌≡◌, ◌≢◌, ◌∙◌, refl, ap, List, [], ◌∷◌, length, ◌==◌, ==_iff, Bool-cases,
  if◌then◌else◌, inl, inr, none, some, Option,
}
use riscv64_cpu.Base.Words.{u64}
use riscv64_cpu.Base.Run.{done, exit, ◌>>◌, >>=-eq-done, done-injective, fault}
use riscv64_cpu.Sim.Config.{Config}
use riscv64_cpu.Sim.State.{Commit, CpuState}
use riscv64_cpu.Sim.Decode.{inst_ebreak}
use riscv64_cpu.Sim.Trace.Ring.{TraceEntry, trace_entry, instr_itrace}
use riscv64_cpu.Sim.Difftest.{
  Reference, difftest_step, display_diff_error, checkregs, checkcsrs, Mismatch,
}
use riscv64_cpu.Sim.Difftest.Checks.{Agree, checkregs-Reports, Reports}
use riscv64_cpu.Sim.Npc.{
  Dut, World, npc_single_cycle, sim_exit, check_ebreak, wait_commit, update_cpu_state,
  instr_trace_dispatch, execute_one, execute,
}
use riscv64_cpu.Sim.Npc.Cycle.{SameBooks, npc_single_cycle-SameBooks, wait_commit-SameBooks}

-- The entry that a committed instruction leaves in the ring.
abbrev pub traced : Commit → TraceEntry
traced k = trace_entry k.pc k.instr

module _ (c : Config) (d : Dut) (r : Reference) where
  -- One round that goes on: the core committed `k`, which is no `ebreak`, it was counted and
  -- traced, and the reference agrees with the core afterwards.
  pub record Commits (k : Commit) (w w' : World c d r) : Type 0 where
    pub no_ebreak : k.instr ≢ inst_ebreak
    pub count : w'.sim_instr_count ≡ u64 (w.sim_instr_count + 1)
    pub ring : w'.ring ≡ instr_itrace k.pc k.instr w.ring
    pub agree : Agree (r.regcpy_to_dut w'.ref) w'.cpu k.next_pc

  sim_exit-not-done : (w w' : World c d r) → sim_exit c d r w ≡ done w' → ⊥
  unfolding sim_exit
  sim_exit-not-done w w' h =
      let (v, e, f) = >>=-eq-done {B = World c d r} (npc_single_cycle c d r w) (λ _. exit 1) h in
      cc f

  check_ebreak-done :
      (k : Commit) (w w' : World c d r) → check_ebreak c d r k w ≡ done w' → k.instr ≢ inst_ebreak
  unfolding check_ebreak
  check_ebreak-done k w w' h e = sim_exit-not-done w w' (rw ((==_iff k.instr inst_ebreak).1 e) at h)

  -- The world with the core's registers copied.
  abbrev pub with_cpu : World c d r → World c d r
  with_cpu w = record w {
    cpu = record {
      gpr = d.array w.dut w.host.reg_ptr;
      pc = d.cur_pc w.dut;
      csr = d.array w.dut w.host.csr_ptr;
    };
  }

  update_cpu_state-SameBooks :
      (w w' : World c d r) → update_cpu_state c d r w ≡ done w' → SameBooks c d r w w'
  unfolding update_cpu_state
  update_cpu_state-SameBooks w w' h = elim (Bool-cases (w.host.reg_ptr == 0)) [
    | inl null ↦ cc (rw null at h)
    | inr set ↦
        let h1 : (if w.host.csr_ptr == 0 then fault else done (with_cpu w)) ≡ done w' =
          rw set at h in
        elim (Bool-cases (w.host.csr_ptr == 0)) [
          | inl null ↦ cc (rw null at h1)
          | inr both ↦
              subst (SameBooks c d r w) (done-injective (rw both at h1))
                (record { count = refl; ring = refl; log = refl; ref = refl })
        ]
  ]

  display_diff_error-done :
      (o : Option Mismatch) (u : Unit {0}) → display_diff_error o ≡ done u → o ≡ none
  unfolding display_diff_error
  display_diff_error-done none u h = refl
  display_diff_error-done (some m) u h = cc

  -- Both checks passed.
  checks-done :
      {X : Type 0} (ref cpu : CpuState) (next_pc : ℕ) (x y : X)
      → (display_diff_error (checkregs ref cpu next_pc)
          >> (display_diff_error (checkcsrs ref cpu) >> done x))
        ≡ done y
      → Agree ref cpu next_pc × (x ≡ y)
  checks-done ref cpu next_pc x y h =
      let (u, e, f) =
        >>=-eq-done (display_diff_error (checkregs ref cpu next_pc))
          (λ _. display_diff_error (checkcsrs ref cpu) >> done x) h in
      let (v, e2, f2) = >>=-eq-done (display_diff_error (checkcsrs ref cpu)) (λ _. done x) f in
      (
        subst (Reports ref cpu next_pc) (display_diff_error-done (checkregs ref cpu next_pc) u e)
            (checkregs-Reports ref cpu next_pc),
        done-injective f2,
      )

  difftest_step-done :
      (k : Commit) (cpu : CpuState) (s : r.State) (y : CpuState × r.State)
      → difftest_step r k cpu s ≡ done y
      → Agree (r.regcpy_to_dut y.1) y.0 k.next_pc
  unfolding difftest_step
  difftest_step-done k cpu s y h =
      let (a, e) = checks-done _ _ k.next_pc _ y h in
      subst (λ z. Agree (r.regcpy_to_dut z.1) z.0 k.next_pc) e a

  -- Every round that goes on commits an instruction.
  pub execute_one-Commits :
      (fuel : ℕ) (w w' : World c d r)
      → execute_one c d r fuel w ≡ done w'
      → (k : Commit) × Commits k w w'
  unfolding execute_one instr_trace_dispatch
  execute_one-Commits fuel w w' h =
      let (w1, e1, f1) = >>=-eq-done (wait_commit c d r fuel w) _ h in
      let k = d.commit_info w1.dut in
      let (u, e2, f2) = >>=-eq-done (check_ebreak c d r k w1) _ f1 in
      let (w2, e3, f3) = >>=-eq-done (npc_single_cycle c d r w1) _ f2 in
      let (w3, e4, f4) = >>=-eq-done (update_cpu_state c d r w2) _ f3 in
      let (y, e5, f5) = >>=-eq-done (difftest_step r k w3.cpu w3.ref) _ f4 in
      let b1 = (wait_commit-SameBooks c d r fuel w w1 e1).0 in
      let b2 = npc_single_cycle-SameBooks c d r w1 w2 e3 in
      let b3 = update_cpu_state-SameBooks w2 w3 e4 in
      (
        k,
        subst (Commits k w) (done-injective f5) (record {
          no_ebreak = check_ebreak-done k w1 u e2;
          count = ap (λ n. u64 (n + 1)) (b3.count ∙ b2.count ∙ b1.count);
          ring = ap (instr_itrace k.pc k.instr) (b3.ring ∙ b2.ring ∙ b1.ring);
          agree = difftest_step-done k w3.cpu w3.ref y e5;
        }),
      )

  -- A run of rounds, with the instructions committed.
  pub data Ran : List Commit → World c d r → World c d r → Type 0 where
    stop : {w : World c d r} → Ran [] w w
    round :
        {ks : List Commit} {w v u : World c d r} (k : Commit)
        → Commits k w v
        → Ran ks v u
        → Ran (k ∷ ks) w u

  pub execute-Ran :
      (fuel n : ℕ) (w w' : World c d r)
      → execute c d r fuel n w ≡ done w'
      → (ks : List Commit) × (length ks ≡ n) × Ran ks w w'
  unfolding execute
  execute-Ran fuel zero w w' h = ([], refl, subst (Ran [] w) (done-injective h) stop)
  execute-Ran fuel (suc n) w w' h =
      let (v, e, f) = >>=-eq-done (execute_one c d r fuel w) (execute c d r fuel n) h in
      let (k, one) = execute_one-Commits fuel w v e in
      let (ks, len, rest) = execute-Ran fuel n v w' f in (k ∷ ks, ap suc len, round k one rest)
