-- ===== src/CpuTests/Sort/Quick.antt =====
-- quick-sort.c sorts.
use riscv64_cpu.Base.{
  zero, suc, refl, true, false, inr, inl, ℕ, ◌+◌, ◌<◌, Bool, ◌-◌, ◌≤◌, arith, leb-false, ltb-false,
  ◌∙◌, ◌≡◌, leb, ltb, ◌⊎◌, not_leb, not_ltb,
}
use riscv64_cpu.Base.Bytes.{Mem}
use riscv64_cpu.Base.Arrays.{count, count-none}
use riscv64_cpu.Base.Run.{done}
use riscv64_cpu.CpuTests.Trap.{signed}
use riscv64_cpu.CpuTests.Sort.{quick_sort}
use riscv64_cpu.CpuTests.Sort.Order.{Ascends}
use riscv64_cpu.CpuTests.Sort.Partition.{Parted, partition-Parted}
use native.Mathlib.Nat.{le_refl}
use native.Mathlib.Decide.{dec_lt, ℕ_discrete}

-- The entries from `p` up to `hi` ascend, are those of `a`, and no others changed.
pub record SortedRange (a b : Mem) (p hi n : ℕ) : Type 0 where
  pub ascends : Ascends b p hi
  pub counts : (t : ℕ → Bool) → count t b n ≡ count t a n
  pub outside : (l : ℕ) → (l < p) ⊎ (hi ≤ l) → b l ≡ a l

-- A bound of the entries is one of the sorted entries.
SortedRange-upper :
    (a b : Mem) (p hi n v : ℕ)
    → hi ≤ n
    → SortedRange a b p hi n
    → ((l : ℕ) → p ≤ l → l < hi → signed (a l) ≤ v)
    → (l : ℕ) → p ≤ l
    → l < hi
    → signed (b l) ≤ v
SortedRange-upper a b p hi n v hn s h l l1 l2 = ltb-false _ _ (
    count-none (λ x. ltb v (signed x)) a b p hi n hn (s.counts _) s.outside
      (λ k k1 k2. not_ltb _ _ (h k k1 k2)) l l1 l2)

SortedRange-lower :
    (a b : Mem) (p hi n v : ℕ)
    → hi ≤ n
    → SortedRange a b p hi n
    → ((l : ℕ) → p ≤ l → l < hi → v < signed (a l))
    → (l : ℕ) → p ≤ l
    → l < hi
    → v < signed (b l)
SortedRange-lower a b p hi n v hn s h l l1 l2 = leb-false _ _ (
    count-none (λ x. leb (signed x) v) a b p hi n hn (s.counts _) s.outside
      (λ k k1 k2. not_leb _ _ (h k k1 k2)) l l1 l2)

-- A parted array of which both parts were sorted.
module _ (a b c e : Mem) (p q n m : ℕ) (qn : q < n) (parted : Parted a b p q n m)
    (left : SortedRange b c p m n) (right : SortedRange c e (m + 1) (q + 1) n) where
  middle : e m ≡ b m
  middle = right.outside m (inl (omega arith)) ∙ left.outside m (inr (le_refl m))

  low : (l : ℕ) → p ≤ l → l < m → signed (e l) ≤ signed (b m)
  low l lo hi = omega (
    arith,
    right.outside l (inl (omega arith)),
    SortedRange-upper b c p m n (signed (b m)) (omega (arith, parted.to)) left parted.below l lo hi,
  )

  high : (l : ℕ) → m < l → l ≤ q → signed (b m) < signed (e l)
  high l lo hi =
      SortedRange-lower c e (m + 1) (q + 1) n (signed (b m)) (omega arith) right
        (λ k k1 k2.
          omega
            (arith, left.outside k (inr (omega arith)), parted.above k (omega arith) (omega arith)))
        l (omega arith) (omega arith)

  low_ascends : (i j : ℕ) → p ≤ i → i ≤ j → j < m → signed (e i) ≤ signed (e j)
  low_ascends i j lo ij hi = omega (
    arith,
    right.outside i (inl (omega arith)),
    right.outside j (inl (omega arith)),
    left.ascends i j lo ij hi,
  )

  both-Ascends : Ascends e p (q + 1)
  both-Ascends i j lo ij hi = elim (dec_lt j m) [
    | yes before ↦ low_ascends i j lo ij before
    | no from ↦ elim (dec_lt m i) [
      | yes behind ↦ right.ascends i j (omega arith) ij hi
      | no to ↦ elim (ℕ_discrete i m) [
        | yes at_i ↦ elim (ℕ_discrete j m) [
          | yes at_j ↦ rw (at_i, at_j) (le_refl _)
          | no nj ↦ rw at_i (omega (arith, middle, high j (omega arith) (omega arith)))
        ]
        | no ni ↦ elim (ℕ_discrete j m) [
          | yes at_j ↦ rw at_j (omega (arith, middle, low i lo (omega arith)))
          | no nj ↦ omega (arith, low i lo (omega arith), high j (omega arith) (omega arith))
        ]
      ]
    ]
  ]

  both-SortedRange : SortedRange a e p (q + 1) n
  both-SortedRange = record {
    ascends = both-Ascends;
    counts = λ t. right.counts t ∙ left.counts t ∙ parted.counts t;
    outside = λ l o.
        right.outside l (omega (arith, o, parted.from, parted.to))
        ∙ left.outside l (omega (arith, o, parted.from, parted.to))
        ∙ parted.outside l (omega (arith, o));
  }

short-SortedRange : (a : Mem) (p hi n : ℕ) → hi ≤ p + 1 → SortedRange a a p hi n
short-SortedRange a p hi n h = record {
  ascends = λ i j lo ij lt. let e : i ≡ j = omega arith in rw e (le_refl _);
  counts = λ t. refl;
  outside = λ l o. refl;
}

-- `quick_sort` of the entries from `p` up to `hi`, with fuel for one more call than there are
-- entries, returns and sorts them. Among the first `n` entries each value occurs as often as
-- before, and the entries outside the range stay.
pub quick_sort-SortedRange :
    (fuel : ℕ) (a : Mem) (p hi n : ℕ)
    → hi ≤ n
    → hi - p < fuel
    → (b : Mem) × (quick_sort fuel a p (hi - 1) ≡ done b) × SortedRange a b p hi n
unfolding quick_sort
quick_sort-SortedRange zero a p hi n hn small = absurd (omega arith)
quick_sort-SortedRange (suc fuel) a p hi n hn small = elim (dec_lt p (hi - 1)) [
  | no end ↦
      let test : leb (hi - 1) p ≡ true = ground arith in
      (a, rw test refl, short-SortedRange a p hi n (omega arith))
  | yes lt ↦
      let test : leb (hi - 1) p ≡ false = ground arith in
      let (m, b, run, parted) = partition-Parted a p (hi - 1) n (omega arith) (omega arith) in
      let (c, run_left, left) =
        quick_sort-SortedRange fuel b p m n (omega (arith, parted.to)) (omega (arith, parted.to)) in
      let (e, run_right, right) =
        quick_sort-SortedRange fuel c (m + 1) hi n hn (omega (arith, parted.from)) in
      let f : hi - 1 + 1 ≡ hi = omega arith in
      let right' : SortedRange c e (m + 1) (hi - 1 + 1) n = rw f right in
      (
        e,
        rw (test, run, run_left) run_right,
        rw f at (both-SortedRange a b c e p (hi - 1) n m (omega arith) parted left right'),
      )
]
