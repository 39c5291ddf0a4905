-- ===== src/CpuTests/Sort/Scan.antt =====
-- Where the inner loops of `partition` stop.
use riscv64_cpu.Base.{
  zero, suc, true, false, inl, inr, ℕ, ◌+◌, ◌<◌, ◌≤◌, ◌≡◌, arith, ◌⊎◌, Bool-cases, ltb, ltb-true,
  ltb-false, ◌&&◌,
}
use riscv64_cpu.Base.Bytes.{Mem}
use riscv64_cpu.CpuTests.Trap.{signed, gt_int}
use riscv64_cpu.CpuTests.Sort.{scan_down, scan_up}
use native.Mathlib.Nat.{le_refl}
use native.Mathlib.Decide.{ℕ_discrete, dec_lt}

-- Where `scan_down` stops.
pub record Down (a : Mem) (i j v k : ℕ) : Type 0 where
  pub from : i ≤ k
  pub to : k ≤ j
  pub above : (l : ℕ) → k < l → l ≤ j → signed v < signed (a l)
  pub stop : (k ≡ i) ⊎ (signed (a k) ≤ signed v)

pub scan_down-Down : (i j v : ℕ) (a : Mem) → i ≤ j → Down a i j v (scan_down i j v a)
unfolding scan_down
scan_down-Down i zero v a h = record {
  from = h;
  to = le_refl 0;
  above = λ l lo hi. absurd (omega arith);
  stop = inl (omega arith);
}
scan_down-Down i (suc j) v a h = elim (dec_lt i (suc j)) [
  | no end ↦
      let test : (ltb i (suc j) && gt_int (a (suc j)) v) ≡ false = ground arith in
      rw test (record {
        from = h;
        to = le_refl _;
        above = λ l lo hi. absurd (omega arith);
        stop = inl (omega arith);
      })
  | yes lt ↦ elim (Bool-cases (gt_int (a (suc j)) v)) [
    | inl more ↦
        let test : (ltb i (suc j) && gt_int (a (suc j)) v) ≡ true = ground arith in
        let d = scan_down-Down i j v a (omega arith) in
        rw test (record {
          from = d.from;
          to = omega (arith, d.to);
          above = λ l lo hi. elim (ℕ_discrete l (suc j)) [
            | yes last ↦ rw last (ltb-true _ _ more)
            | no ne ↦ d.above l lo (omega arith)
          ];
          stop = d.stop;
        })
    | inr less ↦
        let test : (ltb i (suc j) && gt_int (a (suc j)) v) ≡ false = ground arith in
        rw test (record {
          from = h;
          to = le_refl _;
          above = λ l lo hi. absurd (omega arith);
          stop = inr (ltb-false _ _ less);
        })
  ]
]

-- Where `scan_up` stops.
pub record Up (a : Mem) (i j v k : ℕ) : Type 0 where
  pub from : i ≤ k
  pub to : k ≤ j
  pub below : (l : ℕ) → i ≤ l → l < k → signed (a l) ≤ signed v
  pub stop : (k ≡ j) ⊎ (signed v < signed (a k))

pub scan_up-Up : (left i j v : ℕ) (a : Mem) → i + left ≡ j → Up a i j v (scan_up left i v a)
unfolding scan_up
scan_up-Up zero i j v a e = record {
  from = le_refl i;
  to = omega arith;
  below = λ l lo hi. absurd (omega arith);
  stop = inl (omega arith);
}
scan_up-Up (suc left) i j v a e = elim (Bool-cases (gt_int (a i) v)) [
  | inl more ↦ rw more (record {
    from = le_refl i;
    to = omega arith;
    below = λ l lo hi. absurd (omega arith);
    stop = inr (ltb-true _ _ more);
  })
  | inr less ↦
      let u = scan_up-Up left (i + 1) j v a (omega arith) in
      rw less (record {
        from = omega (arith, u.from);
        to = u.to;
        below = λ l lo hi. elim (ℕ_discrete l i) [
          | yes first ↦ rw first (ltb-false _ _ less)
          | no ne ↦ u.below l (omega arith) hi
        ];
        stop = u.stop;
      })
]
