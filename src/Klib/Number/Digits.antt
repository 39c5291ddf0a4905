-- ===== src/Klib/Number/Digits.antt =====
-- What the digit loop and the swap leave in memory.
use riscv64_cpu.Base.{
  zero, suc, refl, ℕ, arith, ◌%◌, ◌+◌, ◌/◌, ◌<◌, ◌≡◌, ◌≢◌, ◌≤◌, ap, ◌-◌, ◌∙◌, ◌⊎◌,
}
use riscv64_cpu.Base.Bytes.{Mem, write, write_self, write_ne}
use riscv64_cpu.Base.Run.{done}
use riscv64_cpu.Klib.Number.{digits_loop, swap_loop}
use native.Mathlib.Decide.{ℕ_discrete, dec_lt}
use riscv64_cpu.Base.Arrays.{exchange, exchange_first, exchange_other}

-- `n` divided by 10, so many times.
unfoldable pub div_10s : ℕ → ℕ → ℕ
div_10s zero n = n
div_10s (suc k) n = div_10s k (n / 10)

pub div_10s-suc : (k n : ℕ) → div_10s (suc k) n ≡ div_10s k n / 10
unfolding div_10s
div_10s-suc zero n = refl
div_10s-suc (suc k) n = div_10s-suc k (n / 10)

-- The `len` digits of `n` from `p` on, the lowest first, none of them needless.
pub record LowFirst (m k : Mem) (p n len : ℕ) : Type 0 where
  pub digits : (j : ℕ) → j < len → k (p + j) ≡ div_10s j n % 10 + 48
  pub needed : (j : ℕ) → j < len → div_10s j n ≢ 0
  pub ends : div_10s len n ≡ 0
  pub outside : (b : ℕ) → (b < p) ⊎ (p + len ≤ b) → k b ≡ m b

first_digit :
    (m k : Mem) (p n len j : ℕ)
    → LowFirst (write m p (n % 10 + 48)) k (p + 1) (n / 10) len
    → j < suc len
    → k (p + j) ≡ div_10s j n % 10 + 48
unfolding div_10s
first_digit m k p n len zero rest lt =
    let e : p + 0 ≡ p = omega arith in
    rw e (rest.outside p (omega arith) ∙ write_self m p (n % 10 + 48))
first_digit m k p n len (suc j) rest lt =
    let e : p + suc j ≡ p + 1 + j = omega arith in rw e (rest.digits j (omega arith))

first_needed :
    (m k : Mem) (p n len j : ℕ)
    → n ≢ 0
    → LowFirst (write m p (n % 10 + 48)) k (p + 1) (n / 10) len
    → j < suc len
    → div_10s j n ≢ 0
unfolding div_10s
first_needed m k p n len zero h rest lt = h
first_needed m k p n len (suc j) h rest lt = rest.needed j (omega arith)

first-LowFirst :
    (m k : Mem) (p n len : ℕ)
    → n ≢ 0
    → LowFirst (write m p (n % 10 + 48)) k (p + 1) (n / 10) len
    → LowFirst m k p n (suc len)
unfolding div_10s
first-LowFirst m k p n len h rest = record {
  digits = λ j lt. first_digit m k p n len j rest lt;
  needed = λ j lt. first_needed m k p n len j h rest lt;
  ends = rest.ends;
  outside = λ b o. rest.outside b (omega arith) ∙ write_ne m p (n % 10 + 48) b (omega arith);
}

no_digits : (m : Mem) (p : ℕ) → LowFirst m m p 0 0
unfolding div_10s
no_digits m p = record {
  digits = λ j lt. absurd (omega arith);
  needed = λ j lt. absurd (omega arith);
  ends = refl;
  outside = λ b o. refl;
}

-- Fuel for one more test than there are digits is enough.
pub digits_loop-LowFirst :
    (fuel n i str : ℕ) (m : Mem)
    → div_10s fuel n ≡ 0
    → (len : ℕ) × (k : Mem) × (len ≤ fuel)
      × (digits_loop (suc fuel) n i str m ≡ done (i + len, k))
      × LowFirst m k (str + i) n len
unfolding digits_loop div_10s
digits_loop-LowFirst zero n i str m h =
    (0, m, omega arith, ground arith, rw h (no_digits m (str + i)))
digits_loop-LowFirst (suc fuel) n i str m h = elim (ℕ_discrete n 0) [
  | yes none_ ↦ (0, m, omega arith, ground arith, rw none_ (no_digits m (str + i)))
  | no some_ ↦
      let (len, k, short, run, low) =
        digits_loop-LowFirst fuel (n / 10) (i + 1) str (write m (str + i) (n % 10 + 48)) h in
      let e : str + (i + 1) ≡ str + i + 1 = omega arith in
      (
        suc len,
        k,
        omega arith,
        ground (arith, run),
        first-LowFirst m k (str + i) n len some_ (rw e at low),
      )
]

-- The bytes `lo` to `hi` at `p` in the opposite order.
pub record Reversed (m k : Mem) (p lo hi : ℕ) : Type 0 where
  pub inside : (j : ℕ) → lo ≤ j → j < hi → k (p + j) ≡ m (p + (lo + hi - 1 - j))
  pub outside : (b : ℕ) → (b < p + lo) ⊎ (p + hi ≤ b) → k b ≡ m b

short-Reversed : (m : Mem) (p lo hi : ℕ) → hi ≤ lo + 1 → Reversed m m p lo hi
short-Reversed m p lo hi h = record {
  inside = λ j a b. ap (λ t. m (p + t)) (omega arith);
  outside = λ b o. refl;
}

-- A swap of the outermost two, and the bytes between them in the opposite order.
ends-Reversed :
    (m k : Mem) (p lo hi : ℕ)
    → lo < hi
    → Reversed (exchange m (p + lo) (p + (hi - 1))) k p (lo + 1) (hi - 1)
    → Reversed m k p lo hi
ends-Reversed m k p lo hi h rest = record {
  inside = λ j a b. elim (ℕ_discrete lo j) [
    | yes first ↦
        let e : p + j ≡ p + lo = omega arith in
        let f : p + (lo + hi - 1 - j) ≡ p + (hi - 1) = omega arith in
        rw (e, f) (rest.outside (p + lo) (omega arith) ∙ exchange_first m (p + lo) (p + (hi - 1)))
    | no later ↦ elim (ℕ_discrete (hi - 1) j) [
      | yes last ↦
          let e : p + j ≡ p + (hi - 1) = omega arith in
          let f : p + (lo + hi - 1 - j) ≡ p + lo = omega arith in
          rw (e, f)
            (rest.outside (p + (hi - 1)) (omega arith)
              ∙ write_self (write m (p + lo) (m (p + (hi - 1)))) (p + (hi - 1)) (m (p + lo)))
      | no between ↦
          let e : lo + hi - 1 - j ≡ lo + 1 + (hi - 1) - 1 - j = omega arith in
          rw e (
            rest.inside j (omega arith) (omega arith)
            ∙ exchange_other m (p + lo) (p + (hi - 1)) (p + (lo + 1 + (hi - 1) - 1 - j))
                (omega arith) (omega arith))
    ]
  ];
  outside = λ b o.
      rest.outside b (omega arith)
      ∙ exchange_other m (p + lo) (p + (hi - 1)) b (omega arith) (omega arith);
}

pub swap_loop-Reversed :
    (fuel lo hi p : ℕ) (m : Mem)
    → hi ≤ lo + fuel
    → (k : Mem) × (swap_loop (suc fuel) lo hi p m ≡ done k) × Reversed m k p lo hi
unfolding swap_loop
swap_loop-Reversed zero lo hi p m h = (m, ground arith, short-Reversed m p lo hi (omega arith))
swap_loop-Reversed (suc fuel) lo hi p m h = elim (dec_lt lo hi) [
  | yes lt ↦
      let (k, run, reversed) =
        swap_loop-Reversed fuel (lo + 1) (hi - 1) p (exchange m (p + lo) (p + (hi - 1)))
          (omega arith) in
      (k, ground (arith, run), ends-Reversed m k p lo hi lt reversed)
  | no ge ↦ (m, ground arith, short-Reversed m p lo hi (omega arith))
]
