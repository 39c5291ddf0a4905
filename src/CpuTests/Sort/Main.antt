-- ===== src/CpuTests/Sort/Main.antt =====
-- The `main` functions of the sorting programs, which are alike.
use riscv64_cpu.Base.{[], ◌∷◌, List, ℕ, ◌==◌}
use riscv64_cpu.Base.Bytes.{Mem}
use riscv64_cpu.Base.Run.{Run, done, ◌>>=◌, ◌>>◌}
use riscv64_cpu.CpuTests.Trap.{check_from, array_of}
use riscv64_cpu.CpuTests.Sort.{bubble_sort, select_sort, quick_sort}

-- The array `a` before it is sorted.
abbrev pub unsorted : List ℕ
unsorted =
    2 ∷ 12 ∷ 14 ∷ 6 ∷ 13 ∷ 15 ∷ 16 ∷ 10 ∷ 0 ∷ 18 ∷ 11 ∷ 19 ∷ 9 ∷ 1 ∷ 7 ∷ 5 ∷ 4 ∷ 3 ∷ 8 ∷ 17 ∷ []

-- Twice sorting, and the checks after each.
unfoldable pub sort_main : (Mem → Run Mem) → Run ℕ
unfolding check_from
sort_main sort = do
  a ← sort (array_of unsorted)
  check_from (λ i. a i == i) 20 0
  b ← sort a
  check_from (λ i. b i == i) 20 0
  done 0

unfoldable pub bubble_main : Run ℕ
unfolding sort_main bubble_sort
bubble_main = sort_main (λ a. done (bubble_sort 20 a))

unfoldable pub select_main : Run ℕ
unfolding sort_main select_sort
select_main = sort_main (λ a. done (select_sort 20 a))

unfoldable pub quick_main : Run ℕ
unfolding sort_main quick_sort
quick_main = sort_main (λ a. quick_sort 21 a 0 19)
