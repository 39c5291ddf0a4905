-- ===== src/CpuTests/Primes.antt =====
-- goldbach.c and prime.c, on numbers that are not negative.
pub mod Trial
use riscv64_cpu.Base.{
  zero, suc, [], ◌∷◌, true, false, List, ℕ, Bool, ◌+◌, ◌==◌, if◌then◌else◌, ◌*◌, ◌-◌, leb, ltb, ◌%◌,
  ◌&&◌,
}
use riscv64_cpu.Base.Run.{Run, done, fault, ◌>>=◌, ◌>>◌, out_of_fuel}
use riscv64_cpu.CpuTests.Trap.{check, check_from, array_of}

-- The loop of `is_prime`, with the rounds left.
unfoldable pub is_prime_loop : ℕ → ℕ → ℕ → Bool
is_prime_loop zero i n = true
is_prime_loop (suc left) i n =
    let rest = is_prime_loop left (i + 1) n in if n % i == 0 then false else rest

unfoldable pub is_prime : ℕ → Bool
unfolding is_prime_loop
is_prime n = if ltb n 2 then false else is_prime_loop (n - 2) 2 n

unfoldable pub goldbach_loop : ℕ → ℕ → ℕ → Bool
unfolding is_prime
goldbach_loop zero i n = false
goldbach_loop (suc left) i n =
    let rest = goldbach_loop left (i + 1) n in if is_prime i && is_prime (n - i) then true else rest

unfoldable pub goldbach : ℕ → Bool
unfolding goldbach_loop
goldbach n = goldbach_loop (n - 2) 2 n

-- `main` of goldbach.c: the round `k` has `n = 4 + 2 * k`.
unfoldable pub goldbach_main : Run ℕ
unfolding goldbach check_from
goldbach_main = check_from (λ k. goldbach (4 + 2 * k)) 14 0 >> done 0

-- `main` of prime.c: the round `k` has `m = 101 + 2 * k`; after its loop `i` is `m` for a prime.
abbrev pub prime_ans : List ℕ
prime_ans = 101 ∷ 103 ∷ 107 ∷ 109 ∷ 113 ∷ 127 ∷ 131 ∷ 137 ∷ 139 ∷ 149 ∷ []

unfoldable pub prime_rounds : ℕ → ℕ → ℕ → Run ℕ
unfolding is_prime_loop
prime_rounds zero m n = check (n == 10) >> done 0
prime_rounds (suc left) m n =
    let prime = is_prime_loop (m - 2) 2 m in
    (if prime then check (m == array_of prime_ans n) else done tt)
    >> prime_rounds left (m + 2) (if prime then n + 1 else n)

unfoldable pub prime_main : Run ℕ
unfolding prime_rounds
prime_main = prime_rounds 25 101 0
