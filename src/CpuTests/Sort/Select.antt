-- ===== src/CpuTests/Sort/Select.antt =====
-- select-sort.c sorts.
use riscv64_cpu.Base.{
  zero, suc, refl, inl, inr, ℕ, Bool, arith, ◌+◌, ◌<◌, ◌≤◌, if◌then◌else◌, ◌-◌, ◌≡◌, ◌∙◌,
  Bool-cases, ltb-true, ltb-false,
}
use riscv64_cpu.Base.Bytes.{Mem}
use riscv64_cpu.CpuTests.Sort.{select_least, select_outer, select_sort}
use riscv64_cpu.CpuTests.Sort.Order.{Ascends, Split, Sorted}
use native.Mathlib.Nat.{add-zero, le_refl}
use native.Mathlib.Decide.{ℕ_discrete}
use riscv64_cpu.CpuTests.Trap.{signed, lt_int}
use riscv64_cpu.Base.Arrays.{
  count, count-exchange, exchange, exchange_first, exchange_other, exchange_source,
}

-- The index `k` of a least entry from `i` to `j`.
record Least (a : Mem) (i j k : ℕ) : Type 0 where
  from : i ≤ k
  below : k < j
  least : (l : ℕ) → i ≤ l → l < j → signed (a k) ≤ signed (a l)

Least-step :
    (a : Mem) (i j k : ℕ) → Least a i j k → Least a i (j + 1) (if lt_int (a j) (a k) then j else k)
Least-step a i j k h = elim (Bool-cases (lt_int (a j) (a k))) [
  | inl less ↦ rw less (record {
    from = omega (arith, h.from, h.below);
    below = omega arith;
    least = λ l lo hi. elim (ℕ_discrete l j) [
      | yes here ↦ rw here (le_refl _)
      | no ne ↦ omega (arith, ltb-true _ _ less, h.least l lo (omega arith))
    ];
  })
  | inr more ↦ rw more (record {
    from = h.from;
    below = omega (arith, h.below);
    least = λ l lo hi. elim (ℕ_discrete l j) [
      | yes here ↦ rw here (ltb-false _ _ more)
      | no ne ↦ h.least l lo (omega arith)
    ];
  })
]

select_least-Least :
    (left i j k : ℕ) (a : Mem) → Least a i j k → Least a i (j + left) (select_least left j k a)
unfolding select_least
select_least-Least zero i j k a h = rw add-zero h
select_least-Least (suc left) i j k a h =
    let e : j + 1 + left ≡ j + suc left = omega arith in
    rw (← e) (select_least-Least left i (j + 1) _ a (Least-step a i j k h))

-- Before the outer loop's round the first `i` entries are in place.
record Front (a b : Mem) (i n : ℕ) : Type 0 where
  ascends : Ascends b 0 i
  split : Split b 0 i n
  counts : (p : ℕ → Bool) → count p b n ≡ count p a n
  outside : (k : ℕ) → n ≤ k → b k ≡ a k

module _ (a b : Mem) (i n k : ℕ) (lt : i < n) (f : Front a b i n) (h : Least b i n k) where
  c_front : (p : ℕ) → p < i → exchange b i k p ≡ b p
  c_front p pi = exchange_other b i k p (omega arith) (omega (arith, h.from))

  c_first : exchange b i k i ≡ b k
  c_first = exchange_first b i k

  c_source : (q : ℕ) → i ≤ q → q < n → (l : ℕ) × (i ≤ l) × (l < n) × (exchange b i k q ≡ b l)
  c_source q lo hi = exchange_source b i k q i n (le_refl i) lt h.from h.below lo hi

  Front-Ascends : Ascends (exchange b i k) 0 (i + 1)
  Front-Ascends p q lo pq hi = elim (ℕ_discrete p q) [
    | yes same ↦ rw same (le_refl _)
    | no ne ↦ elim (ℕ_discrete q i) [
      | yes last ↦ rw last (
          omega
            (arith, c_first, c_front p (omega arith), f.split p k lo (omega arith) h.from h.below))
      | no before ↦ omega (
        arith,
        c_front p (omega arith),
        c_front q (omega arith),
        f.ascends p q lo pq (omega arith),
      )
    ]
  ]

  Front-Split : Split (exchange b i k) 0 (i + 1) n
  Front-Split p q lo pi iq hi =
      let (l, l1, l2, e) = c_source q (omega arith) hi in
      elim (ℕ_discrete p i) [
        | yes here ↦ rw here (omega (arith, c_first, e, h.least l l1 l2))
        | no ne ↦ omega (arith, c_front p (omega arith), e, f.split p l lo (omega arith) l1 l2)
      ]

  Front-step : Front a (exchange b i k) (i + 1) n
  Front-step = record {
    ascends = Front-Ascends;
    split = Front-Split;
    counts = λ p. count-exchange p b i k n lt h.below ∙ f.counts p;
    outside =
        λ m hi. exchange_other b i k m (omega arith) (omega (arith, h.below)) ∙ f.outside m hi;
  }

least_self : (b : Mem) (i l : ℕ) → i ≤ l → l < i + 1 → signed (b i) ≤ signed (b l)
least_self b i l lo hi = let e : l ≡ i = omega arith in rw e (le_refl _)

outer-Front :
    (left n i : ℕ) (a b : Mem)
    → i + left + 1 ≡ n
    → Front a b i n
    → Front a (select_outer n left i b) (n - 1) n
unfolding select_outer
outer-Front zero n i a b e f = let g : i ≡ n - 1 = omega arith in rw g at f
outer-Front (suc left) n i a b e f =
    let start : Least b i (i + 1) i = record {
      from = le_refl i;
      below = omega arith;
      least = λ l lo hi. least_self b i l lo hi;
    } in
    let len : i + 1 + (n - (i + 1)) ≡ n = omega arith in
    let h : Least b i n (select_least (n - (i + 1)) (i + 1) i b) =
      rw len at (select_least-Least (n - (i + 1)) i (i + 1) i b start) in
    outer-Front left n (i + 1) a (exchange b i (select_least (n - (i + 1)) (i + 1) i b))
      (omega arith) (Front-step a b i n (select_least (n - (i + 1)) (i + 1) i b) (omega arith) f h)

-- `select_sort` sorts the first `n` entries, keeps how often each value occurs, and leaves the
-- entries behind them alone.
pub select_sort-Sorted : (n : ℕ) (a : Mem) → Sorted a (select_sort n a) n
unfolding select_sort select_outer
select_sort-Sorted zero a = record {
  ascends = λ p q lo pq hi. absurd (omega arith);
  counts = λ p. refl;
  outside = λ k hi. refl;
}
select_sort-Sorted (suc n) a =
    let start : Front a a 0 (suc n) = record {
      ascends = λ p q lo pq hi. absurd (omega arith);
      split = λ p q lo pi iq hi. absurd (omega arith);
      counts = λ p. refl;
      outside = λ k hi. refl;
    } in
    let f = outer-Front (suc n - 1) (suc n) 0 a a (omega arith) start in
    record {
      ascends = λ p q lo pq hi. elim (ℕ_discrete p q) [
        | yes same ↦ rw same (le_refl _)
        | no ne ↦ elim (ℕ_discrete q n) [
          | yes last ↦ f.split p q lo (omega arith) (omega arith) hi
          | no before ↦ f.ascends p q lo pq (omega arith)
        ]
      ];
      counts = f.counts;
      outside = f.outside;
    }
