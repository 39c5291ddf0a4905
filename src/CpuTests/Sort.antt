-- ===== src/CpuTests/Sort.antt =====
-- bubble-sort.c, select-sort.c and quick-sort.c. An array is a function of its index; the length,
-- `N` in the source, is an argument.
pub mod Order
pub mod Main
pub mod Unique
pub mod Returns
pub mod Bubble
pub mod Scan
pub mod Partition
pub mod Quick
pub mod Select
use riscv64_cpu.Base.{zero, suc, ℕ, ◌+◌, ◌-◌, if◌then◌else◌, leb, ltb, ◌&&◌}
use riscv64_cpu.Base.Bytes.{Mem, write}
use riscv64_cpu.Base.Run.{Run, done, out_of_fuel, ◌>>=◌}
use riscv64_cpu.Base.Arrays.{exchange}
use riscv64_cpu.CpuTests.Trap.{gt_int, lt_int}

-- bubble-sort.c: the inner loop, with the rounds left, and the outer loop.
unfoldable pub bubble_inner : ℕ → ℕ → Mem → Mem
bubble_inner zero i a = a
bubble_inner (suc left) i a =
    bubble_inner left (i + 1) (if gt_int (a i) (a (i + 1)) then exchange a i (i + 1) else a)

unfoldable pub bubble_outer : ℕ → ℕ → ℕ → Mem → Mem
unfolding bubble_inner
bubble_outer n zero j a = a
bubble_outer n (suc left) j a = bubble_outer n left (j + 1) (bubble_inner (n - 1 - j) 0 a)

unfoldable pub bubble_sort : ℕ → Mem → Mem
unfolding bubble_outer
bubble_sort n a = bubble_outer n n 0 a

-- select-sort.c: the search for the least entry, the outer loop.
unfoldable pub select_least : ℕ → ℕ → ℕ → Mem → ℕ
select_least zero j k a = k
select_least (suc left) j k a = select_least left (j + 1) (if lt_int (a j) (a k) then j else k) a

unfoldable pub select_outer : ℕ → ℕ → ℕ → Mem → Mem
unfolding select_least
select_outer n zero i a = a
select_outer n (suc left) i a =
    select_outer n left (i + 1) (exchange a i (select_least (n - (i + 1)) (i + 1) i a))

unfoldable pub select_sort : ℕ → Mem → Mem
unfolding select_outer
select_sort n a = select_outer n (n - 1) 0 a

-- quick-sort.c: the loops of `partition` that move `j` down and, with `j - i` rounds, `i` up.
unfoldable pub scan_down : ℕ → ℕ → ℕ → Mem → ℕ
scan_down i zero pivot a = zero
scan_down i (suc j) pivot a =
    let rest = scan_down i j pivot a in
    if ltb i (suc j) && gt_int (a (suc j)) pivot then rest else suc j

unfoldable pub scan_up : ℕ → ℕ → ℕ → Mem → ℕ
scan_up zero i pivot a = i
scan_up (suc left) i pivot a =
    let rest = scan_up left (i + 1) pivot a in if gt_int (a i) pivot then i else rest

-- The outer loop of `partition`, and its end.
unfoldable pub partition_loop : ℕ → ℕ → ℕ → ℕ → Mem → Run (ℕ × Mem)
unfolding scan_down scan_up
partition_loop zero i j pivot a = out_of_fuel
partition_loop (suc fuel) i j pivot a =
    let j' = scan_down i j pivot a in
    let a1 = write a i (a j') in
    let i' = scan_up (j' - i) i pivot a1 in
    let rest = partition_loop fuel i' j' pivot (write a1 j' (a1 i')) in
    if ltb i j then rest else done (i, write a i pivot)

-- `partition`
unfoldable pub partition : ℕ → Mem → ℕ → ℕ → Run (ℕ × Mem)
unfolding partition_loop
partition fuel a p q = partition_loop fuel p q (a p) a

-- `quick_sort`. `m - 1` is -1 in the source where it is 0 here; both are at most `p`.
unfoldable pub quick_sort : ℕ → Mem → ℕ → ℕ → Run Mem
unfolding partition
quick_sort zero a p q = out_of_fuel
quick_sort (suc fuel) a p q =
    let rest = partition (q - p + 1) a p q >>= λ r.
    quick_sort fuel r.1 p (r.0 - 1) >>= λ b. quick_sort fuel b (r.0 + 1) q in
    if leb q p then done a else rest
