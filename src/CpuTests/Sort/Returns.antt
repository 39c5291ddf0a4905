-- ===== src/CpuTests/Sort/Returns.antt =====
-- The `main` of a program that sorts returns 0.
use riscv64_cpu.Base.{
  zero, suc, refl, [], ◌∷◌, inr, List, arith, ℕ, ◌≡◌, Bool, ◌<◌, sym, ◌^◌, ◌∙◌, ◌==◌, ==_iff,
}
use riscv64_cpu.Base.Bytes.{Mem}
use riscv64_cpu.Base.Arrays.{count}
use riscv64_cpu.Base.Run.{Run, done}
use riscv64_cpu.CpuTests.Trap.{array_of, check_from, check_from-done}
use riscv64_cpu.CpuTests.Sort.Order.{Sorted}
use riscv64_cpu.CpuTests.Sort.Main.{sort_main, unsorted, bubble_main, select_main, quick_main}
use riscv64_cpu.CpuTests.Sort.Unique.{Words, Ascends-unique, Sorted-Words}
use riscv64_cpu.CpuTests.Sort.{bubble_sort, quick_sort, select_sort}
use riscv64_cpu.CpuTests.Sort.Select.{select_sort-Sorted}
use riscv64_cpu.CpuTests.Sort.Bubble.{bubble_sort-Sorted}
use riscv64_cpu.CpuTests.Sort.Quick.{quick_sort-SortedRange}

-- The array that the checks want.
abbrev ascending : Mem
ascending i = i

abbrev AllWords : List ℕ → Type 0
AllWords [] = Unit {0}
AllWords (w ∷ ws) = (w < 2 ^ 32) × AllWords ws

array_of-Words : (l : List ℕ) (i : ℕ) → AllWords l → array_of l i < 2 ^ 32
array_of-Words [] i h = omega arith
array_of-Words (w ∷ ws) zero h = h.0
array_of-Words (w ∷ ws) (suc i) h = array_of-Words ws i h.1

unsorted-Words : Words (array_of unsorted) 20
unsorted-Words i lt = array_of-Words unsorted i (omega arith)

-- `unsorted` has each of the numbers below 20 once.
unsorted_counts : (p : ℕ → Bool) → count p (array_of unsorted) 20 ≡ count p ascending 20
unfolding count
unsorted_counts p = omega arith

abbrev Sorts : (Mem → Run Mem) → Type 0
Sorts sort = (a : Mem) → (b : Mem) × (sort a ≡ done b) × Sorted a b 20

-- What a sort of `unsorted` or of a sorted array leaves is `ascending`.
Sorted-ascending :
    (a b : Mem)
    → Words a 20
    → ((p : ℕ → Bool) → count p a 20 ≡ count p ascending 20)
    → Sorted a b 20
    → (i : ℕ) → i < 20
    → b i ≡ i
Sorted-ascending a b words counts s i lt =
    Ascends-unique b ascending 20 i s.ascends (λ j k lo jk hi. omega arith)
      (λ p. sym (s.counts p ∙ counts p)) (Sorted-Words a b 20 s words) (λ k h. omega arith) lt

sort_main-returns : (sort : Mem → Run Mem) → Sorts sort → sort_main sort ≡ done 0
unfolding sort_main
sort_main-returns sort h =
    let (a, run_a, sa) = h (array_of unsorted) in
    let (b, run_b, sb) = h a in
    let wa = Sorted-Words (array_of unsorted) a 20 sa unsorted-Words in
    let ia = Sorted-ascending (array_of unsorted) a unsorted-Words unsorted_counts sa in
    let ib = Sorted-ascending a b wa (λ p. sa.counts p ∙ unsorted_counts p) sb in
    let checks_a : check_from (λ i. a i == i) 20 0 ≡ done tt =
      check_from-done (λ i. a i == i) 20 0 (λ k lo hi. (==_iff _ _).1 (ia k hi)) in
    let checks_b : check_from (λ i. b i == i) 20 0 ≡ done tt =
      check_from-done (λ i. b i == i) 20 0 (λ k lo hi. (==_iff _ _).1 (ib k hi)) in
    rw (run_a, checks_a, run_b, checks_b) refl

bubble_main_returns : bubble_main ≡ done 0
unfolding bubble_main
bubble_main_returns =
    sort_main-returns (λ a. done (bubble_sort 20 a))
      (λ a. (bubble_sort 20 a, refl, bubble_sort-Sorted 20 a))

select_main_returns : select_main ≡ done 0
unfolding select_main
select_main_returns =
    sort_main-returns (λ a. done (select_sort 20 a))
      (λ a. (select_sort 20 a, refl, select_sort-Sorted 20 a))

quick_main_returns : quick_main ≡ done 0
unfolding quick_main
quick_main_returns =
    sort_main-returns (λ a. quick_sort 21 a 0 19)
      (λ a.
        let (b, run, s) = quick_sort-SortedRange 21 a 0 20 20 (omega arith) (omega arith) in
        (
          b,
          run,
          record { ascends = s.ascends; counts = s.counts; outside = λ k le. s.outside k (inr le) },
        ))
