-- ===== src/CpuTests/Sort/Partition.antt =====
-- `partition` of quick-sort.c.
use riscv64_cpu.Base.{
  refl, zero, suc, true, false, ℕ, ◌+◌, ◌<◌, ◌≤◌, Bool, ◌≡◌, arith, ◌⊎◌, ap, ltb, ◌-◌, ◌≢◌, ◌∙◌,
}
use riscv64_cpu.Base.Bytes.{Mem, write, write_self, write_ne}
use riscv64_cpu.Base.Arrays.{count, count-write, one, count_ext, write_same}
use riscv64_cpu.CpuTests.Trap.{signed}
use riscv64_cpu.CpuTests.Sort.{scan_down, scan_up, partition, partition_loop}
use native.Mathlib.Nat.{le_refl}
use native.Mathlib.Decide.{ℕ_discrete, dec_lt}
use riscv64_cpu.CpuTests.Sort.Scan.{Down, Up, scan_down-Down, scan_up-Up}
use riscv64_cpu.Base.Run.{done}

-- At the head of the loop: the hole is at `i`, what stands before it is not above the pivot, what
-- stands behind `j` is.
record Hole (a0 a : Mem) (p q n i j v : ℕ) : Type 0 where
  from : p ≤ i
  ordered : i ≤ j
  to : j ≤ q
  below : (l : ℕ) → p ≤ l → l < i → signed (a l) ≤ signed v
  above : (l : ℕ) → j < l → l ≤ q → signed v < signed (a l)
  counts : (t : ℕ → Bool) → count t (write a i v) n ≡ count t a0 n
  outside : (l : ℕ) → (l < p) ⊎ (q < l) → a l ≡ a0 l

module _ (a0 a : Mem) (p q n i j v : ℕ) (q_in : q < n) (lt : i < j) (h : Hole a0 a p q n i j v)
    (k m : ℕ) (d : Down a i j v k) (u : Up (write a i (a k)) i k v m) where
  a1_at : write a i (a k) k ≡ a k
  a1_at = elim (ℕ_discrete k i) [
    | yes e ↦ rw e (write_self a i (a i))
    | no ne ↦ write_ne a i (a k) k (omega arith)
  ]

  a2_at : write (write a i (a k)) k (write a i (a k) m) m ≡ write a i (a k) m
  a2_at = elim (ℕ_discrete m k) [
    | yes e ↦ rw e (write_self (write a i (a k)) k (write a i (a k) k))
    | no ne ↦ write_ne (write a i (a k)) k (write a i (a k) m) m (omega arith)
  ]

  moved_counts :
      (t : ℕ → Bool)
      → count t (write (write (write a i (a k)) k (write a i (a k) m)) m v) n ≡ count t a0 n
  moved_counts t =
      let a1 = write a i (a k) in
      let a2 = write a1 k (a1 m) in
      omega (
        arith,
        h.counts t,
        h.ordered,
        h.to,
        d.from,
        d.to,
        u.from,
        u.to,
        count-write t a i v n (omega (arith, h.ordered, h.to)),
        count-write t a i (a k) n (omega (arith, h.ordered, h.to)),
        count-write t a1 k (a1 m) n (omega (arith, d.to, h.to)),
        count-write t a2 m v n (omega (arith, u.to, d.to, h.to)),
        ap (λ x. one (t x)) a1_at,
        ap (λ x. one (t x)) a2_at,
      )

  entry_low :
      (l : ℕ) → p ≤ l → l < m → signed (write (write a i (a k)) k (write a i (a k) m) l) ≤ signed v
  entry_low l lo hi =
      let a1 = write a i (a k) in
      let same : write a1 k (a1 m) l ≡ a1 l = write_ne a1 k (a1 m) l (omega (arith, u.to)) in
      elim (dec_lt l i) [
        | yes before ↦ omega (arith, same, write_ne a i (a k) l (omega arith), h.below l lo before)
        | no behind ↦ omega (arith, same, u.below l (omega arith) hi)
      ]

  Hole-step : Hole a0 (write (write a i (a k)) k (write a i (a k) m)) p q n m k v
  Hole-step =
      let a1 = write a i (a k) in
      let far : (l : ℕ) → l ≢ i → l ≢ k → write a1 k (a1 m) l ≡ a l =
        λ l ni nk. write_ne a1 k (a1 m) l (omega arith) ∙ write_ne a i (a k) l (omega arith) in
      record {
        from = omega (arith, h.from, u.from);
        ordered = u.to;
        to = omega (arith, d.to, h.to);
        below = entry_low;
        above = λ l lo hi. elim (dec_lt j l) [
          | yes behind ↦
              omega (arith, far l (omega arith) (omega (arith, d.to)), h.above l behind hi)
          | no before ↦
              omega (arith, far l (omega (arith, d.from)) (omega arith), d.above l lo (omega arith))
        ];
        counts = moved_counts;
        outside = λ l o.
            far l (omega (arith, o, h.from, h.to)) (omega (arith, o, h.from, h.to, d.from, d.to))
            ∙ h.outside l o;
      }

  stuck : k ≡ j → m ≡ i → ⊥
  stuck e f =
      let at_i : write a i (a k) m ≡ a k = rw f (write_self a i (a k)) in
      omega (arith, d.stop, u.stop, at_i)

  -- The gap between the indices shrinks.
  shrinks : k - m < j - i
  shrinks = elim (ℕ_discrete k j) [
    | no ne ↦ omega (arith, d.from, d.to, u.from, u.to)
    | yes e ↦ elim (ℕ_discrete m i) [
      | no ne ↦ omega (arith, d.from, d.to, u.from, u.to)
      | yes f ↦ absurd (stuck e f)
    ]
  ]

-- The array parted at `m`: nothing before `m` above its entry, everything behind it above.
pub record Parted (a b : Mem) (p q n m : ℕ) : Type 0 where
  pub from : p ≤ m
  pub to : m ≤ q
  pub below : (l : ℕ) → p ≤ l → l < m → signed (b l) ≤ signed (b m)
  pub above : (l : ℕ) → m < l → l ≤ q → signed (b m) < signed (b l)
  pub counts : (t : ℕ → Bool) → count t b n ≡ count t a n
  pub outside : (l : ℕ) → (l < p) ⊎ (q < l) → b l ≡ a l

Hole-Parted :
    (a0 a : Mem) (p q n i j v : ℕ) → j ≤ i → Hole a0 a p q n i j v → Parted a0 (write a i v) p q n i
Hole-Parted a0 a p q n i j v end h =
    let at_i = write_self a i v in
    let far : (l : ℕ) → l ≢ i → write a i v l ≡ a l = λ l ne. write_ne a i v l (omega arith) in
    record {
      from = h.from;
      to = omega (arith, h.ordered, h.to);
      below = λ l lo hi. omega (arith, at_i, far l (omega arith), h.below l lo hi);
      above = λ l lo hi. omega (arith, at_i, far l (omega arith), h.above l (omega arith) hi);
      counts = h.counts;
      outside = λ l o. far l (omega (arith, o, h.from, h.ordered, h.to)) ∙ h.outside l o;
    }

partition_loop-Parted :
    (fuel : ℕ) (a0 a : Mem) (p q n i j v : ℕ)
    → q < n
    → j - i < fuel
    → Hole a0 a p q n i j v
    → (m : ℕ) × (b : Mem) × (partition_loop fuel i j v a ≡ done (m, b)) × Parted a0 b p q n m
unfolding partition_loop
partition_loop-Parted zero a0 a p q n i j v qn small h = absurd (omega arith)
partition_loop-Parted (suc fuel) a0 a p q n i j v qn small h = elim (dec_lt i j) [
  | yes lt ↦
      let k = scan_down i j v a in
      let d = scan_down-Down i j v a h.ordered in
      let a1 = write a i (a k) in
      let m = scan_up (k - i) i v a1 in
      let u = scan_up-Up (k - i) i k v a1 (omega (arith, d.from)) in
      let (r, b, run, parted) =
        partition_loop-Parted fuel a0 (write a1 k (a1 m)) p q n m k v qn
          (omega (arith, shrinks a0 a p q n i j v qn lt h k m d u))
          (Hole-step a0 a p q n i j v qn lt h k m d u) in
      let test : ltb i j ≡ true = ground arith in (r, b, rw test run, parted)
  | no ge ↦
      let test : ltb i j ≡ false = ground arith in
      (i, write a i v, rw test refl, Hole-Parted a0 a p q n i j v (omega arith) h)
]

-- `partition` returns, and parts the entries from `p` to `q`.
pub partition-Parted :
    (a : Mem) (p q n : ℕ)
    → p ≤ q
    → q < n
    → (m : ℕ) × (b : Mem) × (partition (q - p + 1) a p q ≡ done (m, b)) × Parted a b p q n m
unfolding partition
partition-Parted a p q n h qn =
    partition_loop-Parted (q - p + 1) a a p q n p q (a p) qn (omega arith) (record {
      from = le_refl p;
      ordered = h;
      to = le_refl q;
      below = λ l lo hi. absurd (omega arith);
      above = λ l lo hi. absurd (omega arith);
      counts = λ t. count_ext t (write a p (a p)) a n (λ l lt. write_same a p l);
      outside = λ l o. refl;
    })
