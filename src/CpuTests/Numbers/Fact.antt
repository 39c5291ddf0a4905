-- ===== src/CpuTests/Numbers/Fact.antt =====
-- `fact` is the factorial, up to 12.
use riscv64_cpu.Base.{
  refl, true, false, zero, suc, ℕ, ◌*◌, ◌<◌, arith, ◌≡◌, ◌≤◌, ◌+◌, ◌-◌, ◌==◌, leb, leb-true,
}
use riscv64_cpu.CpuTests.Numbers.{fact}
use riscv64_cpu.Base.Run.{done, fault}
use riscv64_cpu.Klib.Memory.{int_max}
use native.Mathlib.Nat.{add-zero, le_refl}
use native.Mathlib.Decide.{ℕ_discrete}

unfoldable pub factorial : ℕ → ℕ
factorial zero = 1
factorial (suc n) = factorial n * suc n

factorial_pos : (n : ℕ) → 0 < factorial n
unfolding factorial
factorial_pos zero = omega arith
factorial_pos (suc n) = grind (arith, factorial_pos n)

factorial_grows : (n : ℕ) → factorial n ≤ factorial (suc n)
unfolding factorial
factorial_grows n = grind (arith, factorial_pos n)

factorial_below : (k n : ℕ) → factorial n ≤ factorial (n + k)
factorial_below zero n = rw add-zero (le_refl _)
factorial_below (suc k) n =
    let e : n + suc k ≡ suc (n + k) = omega arith in
    rw e (omega (arith, factorial_below k n, factorial_grows (n + k)))

fact_fits : (n : ℕ) → factorial n ≤ int_max → fact n ≡ done (factorial n)
unfolding fact factorial
fact_fits zero h = refl
fact_fits (suc n) h = elim (ℕ_discrete n 0) [
  | yes e ↦ rw e refl
  | no ne ↦
      let test : (n == 0) ≡ false = ground arith in
      let fits : leb (factorial n * suc n) int_max ≡ true = leb-true _ _ h in
      rw (test, fact_fits n (omega (arith, h, factorial_grows n)), fits) refl
]

fact_overflows : (k : ℕ) → fact (13 + k) ≡ fault
unfolding fact
fact_overflows zero = refl
fact_overflows (suc k) =
    let e : 13 + suc k ≡ suc (13 + k) = omega arith in
    let test : (13 + k == 0) ≡ false = ground arith in rw e (rw (test, fact_overflows k) refl)

factorial_12 : factorial 12 ≡ 479001600
unfolding factorial
factorial_12 = refl

-- `fact` returns the factorial of a number up to 12, and overflows on any other.
pub fact_lem : (n : ℕ) → (n ≤ 12 → fact n ≡ done (factorial n)) × (12 < n → fact n ≡ fault)
fact_lem n = (
  λ h.
      let e : n + (12 - n) ≡ 12 = omega arith in
      let below : factorial n ≤ factorial 12 = rw e at (factorial_below (12 - n) n) in
      fact_fits n (omega (arith, below, factorial_12)),
  λ h. let e : 13 + (n - 13) ≡ n = omega arith in rw e at (fact_overflows (n - 13)),
)
