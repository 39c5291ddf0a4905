-- ===== src/Klib/Stdlib.antt =====
-- klib/src/stdlib.c: `rand`, `srand` and `abs`; `atoi` is in Klib.Number.
use riscv64_cpu.Base.Words.{u32, u64}
use riscv64_cpu.Base.Run.{Run, done, fault}
use riscv64_cpu.Base.{
  refl, zero, suc, [], ◌∷◌, if◌then◌else◌, ℕ, List, ◌%◌, ◌*◌, ◌==◌, arith, ◌+◌, ◌^◌, ◌/◌, ◌≡◌,
}
use riscv64_cpu.Klib.Memory.{ℤ, pos, negsuc, int_max}
use mathlib.Core.Path.{ap₂}

-- `next` before the first call.
abbrev pub next_init : ℕ
next_init = 1

-- `rand`: the number, and the new `next`.
unfoldable pub rand : ℕ → ℕ × ℕ
rand next = let next' = u64 (next * 1103515245 + 12345) in (u32 (next' / 65536) % 32768, next')

-- `srand`; its argument is an `unsigned int`.
unfoldable pub srand : ℕ → ℕ
srand seed = u32 seed

-- The numbers of `n` calls of `rand`.
unfoldable pub rands : ℕ → ℕ → List ℕ
unfolding rand
rands zero next = []
rands (suc n) next = (rand next).0 ∷ rands n (rand next).1

-- `abs`; the negation of INT_MIN overflows.
unfoldable pub abs : ℤ → Run ℤ
abs (pos n) = done (pos n)
abs (negsuc n) = if n == int_max then fault else done (pos (n + 1))

rand_low :
    (a b : ℕ)
    → a % 2 ^ 31 ≡ b % 2 ^ 31
    → ((rand a).0 ≡ (rand b).0) × ((rand a).1 % 2 ^ 31 ≡ (rand b).1 % 2 ^ 31)
unfolding rand
rand_low a b h = (omega arith, omega arith)

-- The numbers depend on the low 31 bits of `next` only.
pub rands_low : (n a b : ℕ) → a % 2 ^ 31 ≡ b % 2 ^ 31 → rands n a ≡ rands n b
unfolding rands
rands_low zero a b h = refl
rands_low (suc n) a b h =
    let (same, next) = rand_low a b h in
    ap₂ (λ x xs. x ∷ xs) same (rands_low n (rand a).1 (rand b).1 next)
