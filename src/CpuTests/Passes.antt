-- ===== src/CpuTests/Passes.antt =====
-- The main functions of the programs: all checks pass, but for sums that overflow.
use riscv64_cpu.Base.{refl, ◌≡◌}
use riscv64_cpu.Base.Run.{done, fault}
use riscv64_cpu.CpuTests.Bits.{bit_main}
use riscv64_cpu.CpuTests.Shift.{load_store_main, shift_main}
use riscv64_cpu.CpuTests.Matrix.{matrix_main}
use riscv64_cpu.CpuTests.Signed.{add_long_main, add_main, mul_main, sub_long_main}
use riscv64_cpu.CpuTests.Numbers.{shuixianhua_main, sum_main, wanshu_main}
use riscv64_cpu.CpuTests.Crc.{crc_main}
use riscv64_cpu.CpuTests.Branches.{if_else_main, max_main, min3_main, switch_main, to_lower_main}
use riscv64_cpu.CpuTests.Primes.{goldbach_main, prime_main}
use riscv64_cpu.CpuTests.Loads.{div_main, mov_main, movsx_main, unalign_main}
use riscv64_cpu.CpuTests.Strings.{string_main}
use riscv64_cpu.CpuTests.Recursion.{recursion_main}
use riscv64_cpu.CpuTests.Numbers.Mains.{fact_main, fib_main, leap_main, pascal_main}
use riscv64_cpu.Base.Bytes.{load_le, write, store_le}
use riscv64_cpu.Klib.Memory.{strlen}
use riscv64_cpu.CpuTests.HelloStr.{hello_main}
use riscv64_cpu.Klib.Copy.{strcpy}
use riscv64_cpu.Klib.Number.{int_to_str}
use riscv64_cpu.Klib.Format.{clear}

goldbach_main_passes : goldbach_main ≡ done 0
unfolding goldbach_main
goldbach_main_passes = refl

prime_main_passes : prime_main ≡ done 0
unfolding prime_main
prime_main_passes = refl

wanshu_main_passes : wanshu_main ≡ done 0
unfolding wanshu_main
wanshu_main_passes = refl

shuixianhua_main_passes : shuixianhua_main ≡ done 0
unfolding shuixianhua_main
shuixianhua_main_passes = refl

sum_main_passes : sum_main ≡ done 0
unfolding sum_main
sum_main_passes = refl

bit_main_passes : bit_main ≡ done 0
unfolding bit_main write
bit_main_passes = refl

max_main_passes : max_main ≡ done 0
unfolding max_main
max_main_passes = refl

min3_main_passes : min3_main ≡ done 0
unfolding min3_main
min3_main_passes = refl

if_else_main_passes : if_else_main ≡ done 0
unfolding if_else_main
if_else_main_passes = refl

switch_main_passes : switch_main ≡ done 0
unfolding switch_main
switch_main_passes = refl

to_lower_main_passes : to_lower_main ≡ done 0
unfolding to_lower_main
to_lower_main_passes = refl

fact_main_passes : fact_main ≡ done 0
unfolding fact_main
fact_main_passes = refl

leap_main_passes : leap_main ≡ done 0
unfolding leap_main
leap_main_passes = refl

pascal_main_passes : pascal_main ≡ done 0
unfolding pascal_main write
pascal_main_passes = refl

fib_main_passes : fib_main ≡ done 0
unfolding fib_main write
fib_main_passes = refl

crc_main_passes : crc_main ≡ done 0
unfolding crc_main write
crc_main_passes = refl

recursion_main_passes : recursion_main ≡ done 0
unfolding recursion_main
recursion_main_passes = refl

-- The first sum above INT_MAX is undefined; the answers have it wrapped around.
add_main_overflows : add_main ≡ fault
unfolding add_main
add_main_overflows = refl

add_long_main_overflows : add_long_main ≡ fault
unfolding add_long_main
add_long_main_overflows = refl

sub_long_main_overflows : sub_long_main ≡ fault
unfolding sub_long_main
sub_long_main_overflows = refl

mul_main_passes : mul_main ≡ done 0
unfolding mul_main
mul_main_passes = refl

matrix_main_passes : matrix_main ≡ done 0
unfolding matrix_main
matrix_main_passes = refl

shift_main_passes : shift_main ≡ done 0
unfolding shift_main
shift_main_passes = refl

load_store_main_passes : load_store_main ≡ done 0
unfolding load_store_main load_le
load_store_main_passes = refl

string_main_passes : string_main ≡ done 0
unfolding string_main write strlen
string_main_passes = refl

div_main_passes : div_main ≡ done 0
unfolding div_main write
div_main_passes = refl

unalign_main_passes : unalign_main ≡ done 0
unfolding unalign_main write load_le store_le
unalign_main_passes = refl

mov_main_passes : mov_main ≡ done 0
unfolding mov_main write
mov_main_passes = refl

movsx_main_passes : movsx_main ≡ done 0
unfolding movsx_main write
movsx_main_passes = refl

hello_main_passes : hello_main ≡ done 0
unfolding hello_main write strcpy strlen int_to_str clear
hello_main_passes = refl
