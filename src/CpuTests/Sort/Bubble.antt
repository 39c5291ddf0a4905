-- ===== src/CpuTests/Sort/Bubble.antt =====
-- bubble-sort.c sorts.
use riscv64_cpu.Base.{
  zero, suc, refl, inl, inr, ℕ, if◌then◌else◌, ◌+◌, ◌-◌, ◌<◌, Bool-cases, ◌≤◌, ◌≡◌, Bool, arith,
  ltb-true, ◌∙◌, ltb-false,
}
use riscv64_cpu.Base.Bytes.{Mem}
use riscv64_cpu.Base.Arrays.{
  exchange, exchange_first, exchange_second, exchange_other, count, count-exchange, exchange_source,
}
use riscv64_cpu.CpuTests.Trap.{signed, gt_int}
use riscv64_cpu.CpuTests.Sort.{bubble_inner, bubble_outer, bubble_sort}
use riscv64_cpu.CpuTests.Sort.Order.{Ascends, Split, Sorted}
use native.Mathlib.Decide.{ℕ_discrete}
use native.Mathlib.Nat.{le_refl}

abbrev AllBelow : Mem → ℕ → ℕ → Type 0
AllBelow a m v = (k : ℕ) → k < m → signed (a k) ≤ v

-- What the inner loop leaves of the first `m` entries: the largest of them last.
record Bubbled (a b : Mem) (m n : ℕ) : Type 0 where
  top : AllBelow b m (signed (b (m - 1)))
  bounded : (v : ℕ) → AllBelow a m v → AllBelow b m v
  outside : (k : ℕ) → m ≤ k → b k ≡ a k
  counts : (p : ℕ → Bool) → count p b n ≡ count p a n

-- One comparison.
abbrev round : Mem → ℕ → Mem
round a i = if gt_int (a i) (a (i + 1)) then exchange a i (i + 1) else a

record Rounded (a b : Mem) (i n : ℕ) : Type 0 where
  top : AllBelow a (i + 1) (signed (a i)) → AllBelow b (i + 2) (signed (b (i + 1)))
  bounded : (m v : ℕ) → i + 1 < m → AllBelow a m v → AllBelow b m v
  outside : (k : ℕ) → i + 2 ≤ k → b k ≡ a k
  counts : (p : ℕ → Bool) → count p b n ≡ count p a n

round-Rounded : (a : Mem) (i n : ℕ) → i + 1 < n → Rounded a (round a i) i n
round-Rounded a i n h = elim (Bool-cases (gt_int (a i) (a (i + 1)))) [
  | inl more ↦
      let first = exchange_first a i (i + 1) in
      let second = exchange_second a i (i + 1) in
      rw more (record {
        top = λ all_ k lt. elim (ℕ_discrete k (i + 1)) [
          | yes last ↦ rw last (le_refl _)
          | no ne ↦ elim (ℕ_discrete k i) [
            | yes here ↦ rw here (omega (arith, first, second, ltb-true _ _ more))
            | no before ↦
                omega (arith, second, exchange_other a i (i + 1) k before ne, all_ k (omega arith))
          ]
        ];
        bounded = λ m v lt all_ k below.
            let (l, l1, l2, e) =
              exchange_source a i (i + 1) k 0 m (omega arith) (omega arith) (omega arith) lt
                (omega arith) below in
            omega (arith, e, all_ l l2);
        outside = λ k le. exchange_other a i (i + 1) k (omega arith) (omega arith);
        counts = λ p. count-exchange p a i (i + 1) n (omega arith) h;
      })
  | inr less ↦ rw less (record {
    top = λ all_ k lt. elim (ℕ_discrete k (i + 1)) [
      | yes last ↦ rw last (le_refl _)
      | no ne ↦ omega (arith, all_ k (omega arith), ltb-false _ _ less)
    ];
    bounded = λ m v lt all_. all_;
    outside = λ k le. refl;
    counts = λ p. refl;
  })
]

last_index : (i : ℕ) → i + 0 + 1 - 1 ≡ i
last_index i = omega arith

inner-Bubbled :
    (left i n : ℕ) (a : Mem)
    → i + left < n
    → AllBelow a (i + 1) (signed (a i))
    → Bubbled a (bubble_inner left i a) (i + left + 1) n
unfolding bubble_inner
inner-Bubbled zero i n a h top = record {
  top = λ k lt. rw (last_index i) (top k (omega arith));
  bounded = λ v all_. all_;
  outside = λ k le. refl;
  counts = λ p. refl;
}
inner-Bubbled (suc left) i n a h top =
    let one_ = round-Rounded a i n (omega arith) in
    let e : i + 1 + left + 1 ≡ i + suc left + 1 = omega arith in
    let f : i + 1 + 1 ≡ i + 2 = omega arith in
    let next : AllBelow (round a i) (i + 1 + 1) (signed (round a i (i + 1))) =
      rw f (one_.top top) in
    let rest = inner-Bubbled left (i + 1) n (round a i) (omega arith) next in
    rw (← e) (record {
      top = rest.top;
      bounded = λ v all_. rest.bounded v (one_.bounded (i + 1 + left + 1) v (omega arith) all_);
      outside = λ k le. rest.outside k le ∙ one_.outside k (omega arith);
      counts = λ p. rest.counts p ∙ one_.counts p;
    })

-- Before the outer loop's round the first `m` entries are still to sort.
record Tail (a b : Mem) (m n : ℕ) : Type 0 where
  ascends : Ascends b m n
  split : Split b 0 m n
  counts : (p : ℕ → Bool) → count p b n ≡ count p a n
  outside : (k : ℕ) → n ≤ k → b k ≡ a k

module _ (a b c : Mem) (m n : ℕ) (le : suc m ≤ n) (t : Tail a b (suc m) n)
    (s : Bubbled b c (suc m) n) where
  -- The entries of the first part are below the sorted ones still.
  across : (i j : ℕ) → i < suc m → suc m ≤ j → j < n → signed (c i) ≤ signed (c j)
  across i j im mj hi = omega (
    arith,
    s.outside j mj,
    s.bounded (signed (b j)) (λ k lt. t.split k j (omega arith) lt mj hi) i im,
  )

  across_from : (i j : ℕ) → i < suc m → m ≤ j → j < n → signed (c i) ≤ signed (c j)
  across_from i j im mj hi = elim (ℕ_discrete j m) [
    | yes here ↦
        let e : suc m - 1 ≡ m = omega arith in
        let top : signed (c i) ≤ signed (c m) = rw e at (s.top i im) in rw here top
    | no ne ↦ across i j im (omega arith) hi
  ]

  Tail-step : Tail a c m n
  Tail-step = record {
    ascends = λ i j lo ij hi. elim (ℕ_discrete i m) [
      | yes here ↦ across_from i j (omega arith) (omega arith) hi
      | no ne ↦ omega (
        arith,
        s.outside i (omega arith),
        s.outside j (omega arith),
        t.ascends i j (omega arith) ij hi,
      )
    ];
    split = λ i j lo im mj hi. across_from i j (omega arith) mj hi;
    counts = λ p. s.counts p ∙ t.counts p;
    outside = λ k hi. s.outside k (omega arith) ∙ t.outside k hi;
  }

low_first : (b : Mem) (k : ℕ) → k < 1 → signed (b k) ≤ signed (b 0)
low_first b zero h = le_refl _
low_first b (suc k) h = absurd (omega arith)

outer-Tail :
    (n left j : ℕ) (a b : Mem)
    → j + left ≡ n
    → Tail a b left n
    → Tail a (bubble_outer n left j b) 0 n
unfolding bubble_outer
outer-Tail n zero j a b e t = t
outer-Tail n (suc left) j a b e t =
    let top : AllBelow b 1 (signed (b 0)) = λ k lt. low_first b k lt in
    let f : n - 1 - j ≡ left = omega arith in
    let g : 0 + left + 1 ≡ suc left = omega arith in
    let s : Bubbled b (bubble_inner left 0 b) (suc left) n =
      rw g at (inner-Bubbled left 0 n b (omega arith) top) in
    rw f (
      outer-Tail n left (j + 1) a (bubble_inner left 0 b) (omega arith)
        (Tail-step a b (bubble_inner left 0 b) left n (omega arith) t s))

-- `bubble_sort` sorts the first `n` entries, keeps how often each value occurs, and leaves the
-- entries behind them alone.
pub bubble_sort-Sorted : (n : ℕ) (a : Mem) → Sorted a (bubble_sort n a) n
unfolding bubble_sort
bubble_sort-Sorted n a =
    let start : Tail a a n n = record {
      ascends = λ i j lo ij hi. absurd (omega arith);
      split = λ i j lo im mj hi. absurd (omega arith);
      counts = λ p. refl;
      outside = λ k hi. refl;
    } in
    let t = outer-Tail n n 0 a a (omega arith) start in
    record { ascends = t.ascends; counts = t.counts; outside = t.outside }
