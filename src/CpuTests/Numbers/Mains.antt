-- ===== src/CpuTests/Numbers/Mains.antt =====
-- `main` of fact.c, leap-year.c, pascal.c and fib.c.
use riscv64_cpu.Base.{zero, suc, [], ◌∷◌, List, ℕ, if◌then◌else◌, ◌+◌, ◌-◌, ◌==◌}
use riscv64_cpu.CpuTests.Trap.{check, check_from, array_of}
use riscv64_cpu.CpuTests.Numbers.{fact, is_leap_year, pascal, as_int}
use riscv64_cpu.Base.Run.{Run, done, ◌>>=◌, ◌>>◌}
use riscv64_cpu.Base.Bytes.{Mem, write}

abbrev pub fact_ans : List ℕ
fact_ans =
    1 ∷ 1 ∷ 2 ∷ 6 ∷ 24 ∷ 120 ∷ 720 ∷ 5040 ∷ 40320 ∷ 362880 ∷ 3628800 ∷ 39916800 ∷ 479001600 ∷ []

-- The rounds of fact.c; the results it keeps in `f` are not read again.
unfoldable pub fact_rounds : ℕ → ℕ → Run ℕ
unfolding fact
fact_rounds zero i = done 0
fact_rounds (suc left) i =
    (fact i >>= λ f. check (f == array_of fact_ans i)) >> fact_rounds left (i + 1)

unfoldable pub fact_main : Run ℕ
unfolding fact_rounds
fact_main = fact_rounds 13 0

abbrev pub leap_ans : List ℕ
leap_ans =
    0 ∷ 0 ∷ 1 ∷ 0 ∷ 0 ∷ 0 ∷ 1 ∷ 0 ∷ 0 ∷ 0 ∷ 0 ∷ 0 ∷ 0 ∷ 0 ∷ 1 ∷ 0 ∷ 0 ∷ 0 ∷ 1 ∷ 0 ∷ 0 ∷ 0 ∷ 1 ∷ 0
    ∷ 0 ∷ 0 ∷ 1 ∷ 0 ∷ 0 ∷ 0 ∷ 1 ∷ 0 ∷ 0 ∷ 0 ∷ 1 ∷ 0 ∷ 0 ∷ 0 ∷ 1 ∷ 0 ∷ 0 ∷ 0 ∷ 1 ∷ 0 ∷ 0 ∷ 0 ∷ 1 ∷ 0
    ∷ 0 ∷ 0 ∷ 1 ∷ 0 ∷ 0 ∷ 0 ∷ 1 ∷ 0 ∷ 0 ∷ 0 ∷ 1 ∷ 0 ∷ 0 ∷ 0 ∷ 1 ∷ 0 ∷ 0 ∷ 0 ∷ 1 ∷ 0 ∷ 0 ∷ 0 ∷ 1 ∷ 0
    ∷ 0 ∷ 0 ∷ 1 ∷ 0 ∷ 0 ∷ 0 ∷ 1 ∷ 0 ∷ 0 ∷ 0 ∷ 1 ∷ 0 ∷ 0 ∷ 0 ∷ 1 ∷ 0 ∷ 0 ∷ 0 ∷ 1 ∷ 0 ∷ 0 ∷ 0 ∷ 1 ∷ 0
    ∷ 0 ∷ 0 ∷ 1 ∷ 0 ∷ 0 ∷ 0 ∷ 1 ∷ 0 ∷ 0 ∷ 0 ∷ 1 ∷ 0 ∷ 0 ∷ 0 ∷ 1 ∷ 0 ∷ 0 ∷ 0 ∷ 1 ∷ 0 ∷ 0 ∷ 0 ∷ 1 ∷ 0
    ∷ 0 ∷ 0 ∷ 1 ∷ 0 ∷ 0 ∷ []

unfoldable pub leap_main : Run ℕ
unfolding is_leap_year check_from
leap_main =
    check_from (λ k. (if is_leap_year (k + 1890) then 1 else 0) == array_of leap_ans k) 125 0
    >> done 0

abbrev pub pascal_ans : List ℕ
pascal_ans =
    1 ∷ 30 ∷ 435 ∷ 4060 ∷ 27405 ∷ 142506 ∷ 593775 ∷ 2035800 ∷ 5852925 ∷ 14307150 ∷ 30045015
    ∷ 54627300 ∷ 86493225 ∷ 119759850 ∷ 145422675 ∷ 155117520 ∷ 145422675 ∷ 119759850 ∷ 86493225
    ∷ 54627300 ∷ 30045015 ∷ 14307150 ∷ 5852925 ∷ 2035800 ∷ 593775 ∷ 142506 ∷ 27405 ∷ 4060 ∷ 435 ∷ 30
    ∷ 1 ∷ []

unfoldable pub pascal_main : Run ℕ
unfolding pascal check_from
pascal_main = pascal 31 >>= λ a. check_from (λ k. a k == array_of pascal_ans k) 31 0 >> done 0

abbrev pub fib_ans : List ℕ
fib_ans =
    1 ∷ 1 ∷ 2 ∷ 3 ∷ 5 ∷ 8 ∷ 13 ∷ 21 ∷ 34 ∷ 55 ∷ 89 ∷ 144 ∷ 233 ∷ 377 ∷ 610 ∷ 987 ∷ 1597 ∷ 2584
    ∷ 4181 ∷ 6765 ∷ 10946 ∷ 17711 ∷ 28657 ∷ 46368 ∷ 75025 ∷ 121393 ∷ 196418 ∷ 317811 ∷ 514229
    ∷ 832040 ∷ 1346269 ∷ 2178309 ∷ 3524578 ∷ 5702887 ∷ 9227465 ∷ 14930352 ∷ 24157817 ∷ 39088169
    ∷ 63245986 ∷ 102334155 ∷ []

-- The rounds of fib.c, with those left.
unfoldable pub fib_rounds : ℕ → ℕ → Mem → Run Mem
fib_rounds zero i fib = done fib
fib_rounds (suc left) i fib = as_int (fib (i - 1) + fib (i - 2)) >>= λ s.
    check (s == array_of fib_ans i) >> fib_rounds left (i + 1) (write fib i s)

unfoldable pub fib_main : Run ℕ
unfolding fib_rounds
fib_main = fib_rounds 38 2 (array_of (1 ∷ 1 ∷ [])) >> done 0
