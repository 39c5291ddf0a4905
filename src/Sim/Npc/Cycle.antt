-- ===== src/Sim/Npc/Cycle.antt =====
-- What a clock cycle leaves alone, and that the core's wait for a commit ends.
use mathlib.Core.Path.{subst}
use riscv64_cpu.Base.{
  ◌∙◌, ◌≤◌, false, ℕ, zero, suc, ◌≡◌, refl, arith, ◌==◌, ==_iff, Bool-cases, inl, inr,
}
use riscv64_cpu.Base.Run.{done-injective, done, ◌>>=◌, >>=-eq-done}
use riscv64_cpu.Sim.Config.{Config}
use riscv64_cpu.Sim.Difftest.{Reference}
use riscv64_cpu.Sim.Npc.{Dut, World, answer, half_cycle, npc_single_cycle, cycles, wait_commit}

-- What the simulator keeps of the instructions, and the reference.
pub record SameBooks (c : Config) (d : Dut) (r : Reference) (w w' : World c d r) : Type 0 where
  pub count : w'.sim_instr_count ≡ w.sim_instr_count
  pub ring : w'.ring ≡ w.ring
  pub log : w'.log ≡ w.log
  pub ref : w'.ref ≡ w.ref

module _ (c : Config) (d : Dut) (r : Reference) where
  half_cycle-SameBooks :
      (level : ℕ) (w w' : World c d r) → half_cycle c d r level w ≡ done w' → SameBooks c d r w w'
  unfolding half_cycle
  half_cycle-SameBooks level w w' h =
      let (a, e, f) = >>=-eq-done (answer c d r (d.eval (d.set_clk level w.dut)) w.host) _ h in
      subst (SameBooks c d r w) (done-injective f)
        (record { count = refl; ring = refl; log = refl; ref = refl })

  pub npc_single_cycle-SameBooks :
      (w w' : World c d r) → npc_single_cycle c d r w ≡ done w' → SameBooks c d r w w'
  unfolding npc_single_cycle
  npc_single_cycle-SameBooks w w' h =
      let (w1, e1, f1) = >>=-eq-done (half_cycle c d r 0 w) _ h in
      let (w2, e2, f2) = >>=-eq-done (half_cycle c d r 1 w1) _ f1 in
      let b1 = half_cycle-SameBooks 0 w w1 e1 in
      let b2 = half_cycle-SameBooks 1 w1 w2 e2 in
      subst (SameBooks c d r w) (done-injective f2) (record {
        count = b2.count ∙ b1.count;
        ring = b2.ring ∙ b1.ring;
        log = b2.log ∙ b1.log;
        ref = b2.ref ∙ b1.ref;
      })

  -- The wait for a commit runs through cycles in which the core commits nothing.
  pub wait_commit-SameBooks :
      (fuel : ℕ) (w w' : World c d r)
      → wait_commit c d r fuel w ≡ done w'
      → SameBooks c d r w w' × (d.commit w'.dut ≡ 1)
  unfolding wait_commit
  wait_commit-SameBooks zero w w' h = absurd (cc h)
  wait_commit-SameBooks (suc fuel) w w' h = elim (Bool-cases (d.commit w.dut == 1)) [
    | inl yes_ ↦
        let same : done w ≡ done w' = rw yes_ at h in
        subst (λ v. SameBooks c d r w v × (d.commit v.dut ≡ 1)) (done-injective same)
          (record { count = refl; ring = refl; log = refl; ref = refl }, (==_iff _ 1).0 yes_)
    | inr no_ ↦
        let step : (npc_single_cycle c d r w >>= wait_commit c d r fuel) ≡ done w' = rw no_ at h in
        let (w1, e, f) = >>=-eq-done (npc_single_cycle c d r w) (wait_commit c d r fuel) step in
        let b = npc_single_cycle-SameBooks w w1 e in
        let rest = wait_commit-SameBooks fuel w1 w' f in
        (
          record {
            count = rest.0.count ∙ b.count;
            ring = rest.0.ring ∙ b.ring;
            log = rest.0.log ∙ b.log;
            ref = rest.0.ref ∙ b.ref;
          },
          rest.1,
        )
  ]

  pub wait_commit_now :
      (fuel : ℕ) (w : World c d r) → d.commit w.dut ≡ 1 → wait_commit c d r (suc fuel) w ≡ done w
  unfolding wait_commit
  wait_commit_now fuel w e = rw ((==_iff (d.commit w.dut) 1).1 e)

  wait_commit_later :
      (fuel : ℕ) (w w1 : World c d r)
      → (d.commit w.dut == 1) ≡ false
      → npc_single_cycle c d r w ≡ done w1
      → wait_commit c d r (suc fuel) w ≡ wait_commit c d r fuel w1
  unfolding wait_commit
  wait_commit_later fuel w w1 e step = rw (e, step)

  -- If within `k` cycles the core would commit, then fuel for one more test ends the wait, after no
  -- more than `k` cycles, at a commit.
  pub wait_commit_ends :
      (k : ℕ) (w w' : World c d r)
      → cycles c d r k w ≡ done w'
      → d.commit w'.dut ≡ 1
      → (j : ℕ) × (v : World c d r) × (j ≤ k)
        × (cycles c d r j w ≡ done v)
        × (wait_commit c d r (suc k) w ≡ done v)
        × (d.commit v.dut ≡ 1)
  unfolding cycles
  wait_commit_ends zero w w' h e =
      let now : d.commit w.dut ≡ 1 = rw (done-injective h) e in
      (0, w, omega arith, refl, wait_commit_now 0 w now, now)
  wait_commit_ends (suc k) w w' h e = elim (Bool-cases (d.commit w.dut == 1)) [
    | inl here ↦
        let now = (==_iff (d.commit w.dut) 1).0 here in
        (0, w, omega arith, refl, wait_commit_now (suc k) w now, now)
    | inr later ↦
        let (w1, step, f) = >>=-eq-done (npc_single_cycle c d r w) (cycles c d r k) h in
        let (j, v, le, run, wait, now) = wait_commit_ends k w1 w' f e in
        (suc j, v, omega arith, rw step run, wait_commit_later (suc k) w w1 later step ∙ wait, now)
  ]
