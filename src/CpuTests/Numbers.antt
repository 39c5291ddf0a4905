-- ===== src/CpuTests/Numbers.antt =====
-- wanshu.c, shuixianhua.c, leap-year.c, sum.c, fact.c, fib.c and pascal.c. An `int` sum or product
-- above INT_MAX is undefined.
pub mod Fact
pub mod Mains
pub mod Pascal
use riscv64_cpu.Base.{
  zero, suc, [], ◌∷◌, ℕ, Bool, if◌then◌else◌, ◌*◌, ◌+◌, ◌-◌, ◌==◌, leb, ◌%◌, ◌/◌, ◌&&◌, not, ◌||◌,
}
use riscv64_cpu.Base.Bytes.{Mem, write}
use riscv64_cpu.Base.Run.{Run, done, fault, ◌>>=◌, ◌>>◌}
use riscv64_cpu.Klib.Memory.{int_max}
use riscv64_cpu.CpuTests.Trap.{check, check_from, array_of}

-- The result of an `int` operation.
abbrev pub as_int : ℕ → Run ℕ
as_int n = if leb n int_max then done n else fault

-- wanshu.c: the divisors of `n` from `i` on added to `sum`, and `main` with `n` from 1.
unfoldable pub add_divisors : ℕ → ℕ → ℕ → ℕ → ℕ
add_divisors zero i n sum = sum
add_divisors (suc left) i n sum = add_divisors left (i + 1) n (if n % i == 0 then sum + i else sum)

unfoldable pub wanshu_rounds : ℕ → ℕ → ℕ → Run ℕ
unfolding add_divisors
wanshu_rounds zero n k = check (k == 2) >> done 0
wanshu_rounds (suc left) n k =
    let perfect = add_divisors (n - 1) 1 n 0 == n in
    (if perfect then check (n == array_of (6 ∷ 28 ∷ []) k) else done tt)
    >> wanshu_rounds left (n + 1) (if perfect then k + 1 else k)

unfoldable pub wanshu_main : Run ℕ
unfolding wanshu_rounds
wanshu_main = wanshu_rounds 29 1 0

-- shuixianhua.c
abbrev pub cube : ℕ → ℕ
cube n = n * n * n

unfoldable pub shuixianhua_rounds : ℕ → ℕ → ℕ → Run ℕ
shuixianhua_rounds zero n k = check (k == 4) >> done 0
shuixianhua_rounds (suc left) n k =
    let n2 = n / 100 in
    let n1 = n / 10 % 10 in
    let n0 = n % 10 in
    let found = n == cube n2 + cube n1 + cube n0 in
    (if found then check (n == array_of (153 ∷ 370 ∷ 371 ∷ 407 ∷ []) k) else done tt)
    >> shuixianhua_rounds left (n + 1) (if found then k + 1 else k)

unfoldable pub shuixianhua_main : Run ℕ
unfolding shuixianhua_rounds
shuixianhua_main = shuixianhua_rounds 400 100 0

-- leap-year.c, without its table of answers.
unfoldable pub is_leap_year : ℕ → Bool
is_leap_year n = ((n % 4 == 0) && not (n % 100 == 0)) || (n % 400 == 0)

-- sum.c: `sum` when the loop ends.
unfoldable pub sum_loop : ℕ → ℕ → ℕ → Run ℕ
sum_loop zero i sum = done sum
sum_loop (suc left) i sum = as_int (sum + i) >>= λ s. sum_loop left (i + 1) s

unfoldable pub sum_main : Run ℕ
unfolding sum_loop
sum_main = sum_loop 100 1 0 >>= λ sum. check (sum == 5050) >> done 0

-- fact.c
unfoldable pub fact : ℕ → Run ℕ
fact zero = done 1
fact (suc n) = let rest = fact n >>= λ r. as_int (r * suc n) in if n == 0 then done 1 else rest

-- pascal.c: the inner loop, which takes a row to the next, and the loop over the rows.
unfoldable pub pascal_inner : ℕ → ℕ → ℕ → Mem → Run Mem
pascal_inner zero j t0 a = done a
pascal_inner (suc left) j t0 a =
    as_int (t0 + a j) >>= λ s. pascal_inner left (j + 1) (a j) (write a j s)

unfoldable pub pascal_rows : ℕ → ℕ → Mem → Run Mem
unfolding pascal_inner
pascal_rows zero i a = done a
pascal_rows (suc left) i a =
    pascal_inner (i - 1) 1 1 a >>= λ b. pascal_rows left (i + 1) (write b i 1)

-- The rows up to the `n`-th entry, `N` in the source, from an array of zeros.
unfoldable pub pascal : ℕ → Run Mem
unfolding pascal_rows
pascal n = pascal_rows (n - 2) 2 (write (write (λ i. 0) 1 1) 0 1)
