-- ===== src/CpuTests/Mersenne.antt =====
-- mersenne.c: `isPrime`, for an `n` that is not negative. `main` shifts an int past its sign and is
-- not modelled.
pub mod Divisors
pub mod Wheel
use riscv64_cpu.Base.{zero, suc, true, false, ℕ, Bool, if◌then◌else◌, ◌+◌, ◌%◌, ◌*◌, leb, ◌==◌}
use riscv64_cpu.Base.Run.{Run, done, out_of_fuel, ◌>>=◌}
use riscv64_cpu.CpuTests.Numbers.{as_int}

-- The loop over `d`, on fuel, and the last line.
unfoldable pub wheel_loop : ℕ → ℕ → ℕ → Run Bool
wheel_loop zero d n = out_of_fuel
wheel_loop (suc fuel) d n =
    let rest = wheel_loop fuel (d + 2 + 4) n in
    as_int (d * d) >>= λ square.
    if leb square n
    then (if n % d == 0 then done false else if n % (d + 2) == 0 then done false else rest)
    else done true

unfoldable pub is_prime_wheel : ℕ → ℕ → Run Bool
unfolding wheel_loop
is_prime_wheel fuel n =
    if n % 2 == 0 then done (n == 2) else if n % 3 == 0 then done (n == 3) else wheel_loop fuel 5 n
