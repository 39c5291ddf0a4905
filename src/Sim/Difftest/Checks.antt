-- ===== src/Sim/Difftest/Checks.antt =====
-- What `checkregs` and `checkcsrs` find.
use riscv64_cpu.Base.{
  ◌==◌, ==_iff, false, ℕ, zero, suc, ◌+◌, ◌≤◌, ◌<◌, ◌≡◌, ◌≢◌, refl, arith, Option, none, some, List,
  [], ◌∷◌,
}
use native.Mathlib.Decide.{ℕ_discrete}
use riscv64_cpu.Sim.State.{CpuState}
use riscv64_cpu.Sim.Cpu.{CsrEntry, csr_map}
use riscv64_cpu.Sim.Difftest.{
  Mismatch, pc_differs, gpr_differs, csr_differs, check_gprs, check_csrs, checkcsrs, checkregs,
}

module _ (ref cpu : CpuState) where
  -- What a finding of the loop from `i` on says.
  abbrev pub Explains : ℕ → ℕ → Option Mismatch → Type 0
  Explains left i none = (j : ℕ) → i ≤ j → j < i + left → ref.gpr j ≡ cpu.gpr j
  Explains left i (some pc_differs) = ⊥
  Explains left i (some (gpr_differs k)) =
      (i ≤ k)
      × (k < i + left)
      × (ref.gpr k ≢ cpu.gpr k)
      × ((j : ℕ) → i ≤ j → j < k → ref.gpr j ≡ cpu.gpr j)
  Explains left i (some (csr_differs k)) = ⊥

  same_from :
      (left i : ℕ)
      → ref.gpr i ≡ cpu.gpr i
      → ((j : ℕ) → i + 1 ≤ j → j < i + 1 + left → ref.gpr j ≡ cpu.gpr j)
      → (j : ℕ) → i ≤ j
      → j < i + suc left
      → ref.gpr j ≡ cpu.gpr j
  same_from left i e h j lo hi = elim (ℕ_discrete i j) [
    | yes here ↦ rw (← here) e
    | no ne ↦ h j (omega arith) (omega arith)
  ]

  Explains-step :
      (left i : ℕ) (found : Option Mismatch)
      → ref.gpr i ≡ cpu.gpr i
      → Explains left (i + 1) found
      → Explains (suc left) i found
  Explains-step left i none e h = λ j lo hi. same_from left i e h j lo hi
  Explains-step left i (some pc_differs) e h = h
  Explains-step left i (some (gpr_differs k)) e h = (
    omega arith,
    omega arith,
    h.2,
    λ j lo hi. elim (ℕ_discrete i j) [ yes here ↦ rw (← here) e | no ne ↦ h.3 j (omega arith) hi ],
  )
  Explains-step left i (some (csr_differs k)) e h = h

  check_gprs-Explains : (left i : ℕ) → Explains left i (check_gprs ref cpu left i)
  unfolding check_gprs
  check_gprs-Explains zero i = λ j lo hi. absurd (omega arith)
  check_gprs-Explains (suc left) i = elim (ℕ_discrete (ref.gpr i) (cpu.gpr i)) [
    | yes e ↦
        let test = (==_iff (ref.gpr i) (cpu.gpr i)).1 e in
        rw test (
          Explains-step left i (check_gprs ref cpu left (i + 1)) e
            (check_gprs-Explains left (i + 1)))
    | no ne ↦
        let test : (ref.gpr i == cpu.gpr i) ≡ false = ground arith in
        rw test (omega arith, omega arith, ne, λ j lo hi. absurd (omega arith))
  ]

  -- `checkcsrs` finds nothing, whatever the CSRs are.
  pub checkcsrs-none : checkcsrs ref cpu ≡ none
  unfolding checkcsrs
  checkcsrs-none = go csr_map
    where
      go : (es : List CsrEntry) → check_csrs ref cpu es ≡ none
      go [] = refl
      go (e ∷ es) = ground (arith, go es)

  -- What a finding of `checkregs` says.
  abbrev pub Reports : ℕ → Option Mismatch → Type 0
  Reports next_pc none = (next_pc ≡ ref.pc) × ((i : ℕ) → i < 32 → ref.gpr i ≡ cpu.gpr i)
  Reports next_pc (some pc_differs) = next_pc ≢ ref.pc
  Reports next_pc (some (gpr_differs k)) =
      (next_pc ≡ ref.pc)
      × (k < 32)
      × (ref.gpr k ≢ cpu.gpr k)
      × ((i : ℕ) → i < k → ref.gpr i ≡ cpu.gpr i)
  Reports next_pc (some (csr_differs k)) = ⊥

  Reports-of :
      (next_pc : ℕ) (found : Option Mismatch)
      → next_pc ≡ ref.pc
      → Explains 32 0 found
      → Reports next_pc found
  Reports-of next_pc none e h = (e, λ i lt. h i (omega arith) (omega arith))
  Reports-of next_pc (some pc_differs) e h = absurd h
  Reports-of next_pc (some (gpr_differs k)) e h =
      (e, omega arith, h.2, λ i lt. h.3 i (omega arith) lt)
  Reports-of next_pc (some (csr_differs k)) e h = absurd h

  -- `checkregs` finds nothing exactly when the program counter and all 32 registers agree; else it
  -- finds a program counter that differs, or, if that agrees, the first register that differs.
  pub checkregs-Reports : (next_pc : ℕ) → Reports next_pc (checkregs ref cpu next_pc)
  unfolding checkregs
  checkregs-Reports next_pc = elim (ℕ_discrete next_pc ref.pc) [
    | yes e ↦
        let test = (==_iff next_pc ref.pc).1 e in
        rw test (Reports-of next_pc (check_gprs ref cpu 32 0) e (check_gprs-Explains 32 0))
    | no ne ↦ let test : (next_pc == ref.pc) ≡ false = ground arith in rw test ne
  ]

  abbrev pub Agree : ℕ → Type 0
  Agree next_pc = Reports next_pc none

  -- A finding is no agreement.
  Reports-not-Agree : (next_pc : ℕ) (x : Mismatch) → Reports next_pc (some x) → ¬ (Agree next_pc)
  Reports-not-Agree next_pc pc_differs h a = h a.0
  Reports-not-Agree next_pc (gpr_differs k) h a = h.2 (a.1 k h.1)
  Reports-not-Agree next_pc (csr_differs k) h a = h

  pub checkregs-none : (next_pc : ℕ) → Agree next_pc → checkregs ref cpu next_pc ≡ none
  checkregs-none next_pc a =
      (elim (checkregs ref cpu next_pc) as (λ o. Reports next_pc o → o ≡ none) [
        | none ↦ λ h. refl
        | some x ↦ λ h. absurd (Reports-not-Agree next_pc x h a)
      ])
        (checkregs-Reports next_pc)

  pub checkregs-some :
      (next_pc : ℕ) → ¬ (Agree next_pc) → (x : Mismatch) × (checkregs ref cpu next_pc ≡ some x)
  checkregs-some next_pc n =
      (elim (checkregs ref cpu next_pc)
          as (λ o. Reports next_pc o → (x : Mismatch) × (o ≡ some x)) [
            | none ↦ λ h. absurd (n h)
            | some x ↦ λ h. (x, refl)
          ])
        (checkregs-Reports next_pc)
