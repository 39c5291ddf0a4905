-- ===== src/CpuTests/Tests.antt =====
-- The algorithms of the programs at concrete inputs.
use riscv64_cpu.Base.{zero, suc, ◌-◌, ◌≡◌, arith}
use riscv64_cpu.Base.Bytes.{Mem}
use riscv64_cpu.Base.Run.{done}
use riscv64_cpu.CpuTests.Trap.{array_of}
use riscv64_cpu.CpuTests.Sort.{quick_sort}
use riscv64_cpu.CpuTests.Sort.Main.{unsorted}
use riscv64_cpu.CpuTests.Sort.Quick.{SortedRange, quick_sort-SortedRange}
use riscv64_cpu.CpuTests.Sort.Unique.{Words}
use riscv64_cpu.CpuTests.Crc.{rc_crc32, no_table, str, not32}
use riscv64_cpu.CpuTests.Crc.Bitwise.{shifted, IsTable, rc_crc32_lem}

quick_sort-SortedRange_example :
    (b : Mem) × (quick_sort 21 (array_of unsorted) 0 (20 - 1) ≡ done b)
    × SortedRange (array_of unsorted) b 0 20 20
quick_sort-SortedRange_example =
    quick_sort-SortedRange 21 (array_of unsorted) 0 20 20 (omega arith) (omega arith)

unsorted-Words : Words (array_of unsorted) 3
unsorted-Words zero lt = omega arith
unsorted-Words (suc zero) lt = omega arith
unsorted-Words (suc (suc zero)) lt = omega arith
unsorted-Words (suc (suc (suc i))) lt = absurd (omega arith)

rc_crc32_lem_example :
    ((rc_crc32 no_table 0 (array_of str) 4 9).0 ≡ not32 (shifted 9 (array_of str) 4 (not32 0)))
    × IsTable (rc_crc32 no_table 0 (array_of str) 4 9).1
rc_crc32_lem_example = rc_crc32_lem no_table 0 (array_of str) 4 9 (λ e. cc)
