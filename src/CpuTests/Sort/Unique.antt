-- ===== src/CpuTests/Sort/Unique.antt =====
-- An ascending array is determined by how often its entries occur, so the three sorts agree.
use riscv64_cpu.Base.{
  inr, zero, suc, true, false, ℕ, Bool, ◌<◌, ◌^◌, ◌≡◌, ◌≤◌, arith, ap, leb, sym, ◌+◌, leb-true,
  not_leb, leb-false, ◌-◌, ◌∙◌,
}
use riscv64_cpu.Base.Bytes.{Mem}
use riscv64_cpu.Base.Arrays.{count, one, count-none}
use riscv64_cpu.Base.Run.{done}
use riscv64_cpu.CpuTests.Trap.{signed}
use riscv64_cpu.CpuTests.Sort.{bubble_sort, select_sort, quick_sort}
use riscv64_cpu.CpuTests.Sort.Order.{Ascends, Sorted}
use riscv64_cpu.CpuTests.Sort.Bubble.{bubble_sort-Sorted}
use riscv64_cpu.CpuTests.Sort.Select.{select_sort-Sorted}
use riscv64_cpu.CpuTests.Sort.Quick.{quick_sort-SortedRange}
use native.Mathlib.Decide.{dec_le, ℕ_discrete}
use native.Mathlib.Nat.{le_refl}

-- If the first `i` entries pass, at least `i` do; if none from `i` on does, at most `i` do.
count_many :
    (p : ℕ → Bool) (a : Mem) (i n : ℕ)
    → i ≤ n
    → ((k : ℕ) → k < i → p (a k) ≡ true)
    → i ≤ count p a n
unfolding count
count_many p a i zero le h = le
count_many p a i (suc n) le h = elim (ℕ_discrete i (suc n)) [
  | no ne ↦ omega (arith, count_many p a i n (omega arith) h)
  | yes e ↦ omega (
    arith,
    count_many p a n n (le_refl n) (λ k lt. h k (omega arith)),
    ap one (h n (omega arith)),
  )
]

one_le : (b : Bool) → one b ≤ 1
one_le true = omega arith
one_le false = omega arith

count_bound : (p : ℕ → Bool) (a : Mem) (n : ℕ) → count p a n ≤ n
unfolding count
count_bound p a zero = omega arith
count_bound p a (suc n) = omega (arith, count_bound p a n, one_le (p (a n)))

count_few :
    (p : ℕ → Bool) (a : Mem) (i n : ℕ)
    → ((k : ℕ) → i ≤ k → k < n → p (a k) ≡ false)
    → count p a n ≤ i
unfolding count
count_few p a i zero h = omega arith
count_few p a i (suc n) h = elim (dec_le i n) [
  | yes le ↦
      omega
        (arith, count_few p a i n (λ k lo hi. h k lo (omega arith)), ap one (h n le (omega arith)))
  | no lt ↦ omega (arith, count_bound p a n, one_le (p (a n)))
]

-- Of two ascending arrays with the same entries neither has a larger one at an index.
not_below :
    (a b : Mem) (n i : ℕ)
    → Ascends a 0 n
    → Ascends b 0 n
    → ((p : ℕ → Bool) → count p b n ≡ count p a n)
    → i < n
    → signed (b i) ≤ signed (a i)
not_below a b n i ha hb counts lt = elim (dec_le (signed (b i)) (signed (a i))) [
  | yes le ↦ le
  | no more ↦
      let p : ℕ → Bool = λ x. leb (signed x) (signed (a i)) in
      let many : i + 1 ≤ count p a n =
        count_many p a (i + 1) n (omega arith)
          (λ k below. leb-true _ _ (ha k i (omega arith) (omega arith) lt)) in
      let few : count p b n ≤ i =
        count_few p b i n
          (λ k from to. not_leb _ _ (omega (arith, hb i k (omega arith) from to))) in
      absurd (omega (arith, counts p, many, few))
]

-- Entries of 32 bits.
abbrev pub Words : Mem → ℕ → Type 0
Words a n = (i : ℕ) → i < n → a i < 2 ^ 32

pub Ascends-unique :
    (a b : Mem) (n i : ℕ)
    → Ascends a 0 n
    → Ascends b 0 n
    → ((p : ℕ → Bool) → count p b n ≡ count p a n)
    → Words a n
    → Words b n
    → i < n
    → a i ≡ b i
Ascends-unique a b n i ha hb counts wa wb lt = omega (
  arith,
  wa i lt,
  wb i lt,
  not_below a b n i ha hb counts lt,
  not_below b a n i hb ha (λ p. sym (counts p)) lt,
)

-- Sorting keeps entries of 32 bits.
pub Sorted-Words : (a b : Mem) (n : ℕ) → Sorted a b n → Words a n → Words b n
Sorted-Words a b n s wa i lt = leb-false _ _ (
    count-none (λ x. leb (2 ^ 32) x) a b 0 n n (le_refl n) (s.counts _)
      (λ k o. s.outside k (omega arith)) (λ k lo hi. not_leb _ _ (wa k hi)) i (omega arith) lt)

pub Sorted-unique :
    (a b c : Mem) (n i : ℕ) → Words a n → Sorted a b n → Sorted a c n → i < n → b i ≡ c i
Sorted-unique a b c n i wa sb sc lt =
    Ascends-unique b c n i sb.ascends sc.ascends (λ p. sc.counts p ∙ sym (sb.counts p))
      (Sorted-Words a b n sb wa) (Sorted-Words a c n sc wa) lt

-- On `n` words of 32 bits `quick_sort` returns, with fuel `n + 1`, and the three programs leave the
-- same entries.
sorts_agree :
    (n : ℕ) (a : Mem)
    → Words a n
    → (q : Mem) × (quick_sort (n + 1) a 0 (n - 1) ≡ done q)
      × ((i : ℕ) → i < n → (q i ≡ bubble_sort n a i) × (select_sort n a i ≡ bubble_sort n a i))
sorts_agree n a words =
    let (q, run, range) = quick_sort-SortedRange (n + 1) a 0 n n (le_refl n) (omega arith) in
    let quick : Sorted a q n = record {
      ascends = range.ascends;
      counts = range.counts;
      outside = λ k le. range.outside k (inr le);
    } in
    let bubble = bubble_sort-Sorted n a in
    (
      q,
      run,
      λ i lt. (
        Sorted-unique a q (bubble_sort n a) n i words quick bubble lt,
        Sorted-unique a (select_sort n a) (bubble_sort n a) n i words (select_sort-Sorted n a)
            bubble lt,
      ),
    )
