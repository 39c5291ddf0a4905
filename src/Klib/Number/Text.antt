-- ===== src/Klib/Number/Text.antt =====
-- `uint_to_str` and `int_to_str` as decimal text.
use riscv64_cpu.Base.{
  zero, suc, refl, ℕ, ◌<◌, ◌≡◌, ◌≢◌, arith, ◌+◌, ◌^◌, ◌⊎◌, inl, ◌-◌, ◌≤◌, ◌%◌, ◌==◌, ◌∙◌, false,
  inr,
}
use riscv64_cpu.Base.Bytes.{Mem, write, write_self, write_ne}
use riscv64_cpu.Base.Run.{done, ◌>>=◌}
use riscv64_cpu.Klib.Number.{digits_loop, swap_str, uint_to_str}
use riscv64_cpu.Klib.Number.Digits.{
  LowFirst, Reversed, div_10s, digits_loop-LowFirst, swap_loop-Reversed,
}
use native.Mathlib.Decide.{ℕ_discrete}

-- The decimal text of `n` stands at `p`, with no needless zero in front and a zero behind.
pub record Decimal (k : Mem) (p n len : ℕ) : Type 0 where
  pub digits : (j : ℕ) → j < len → k (p + j) ≡ div_10s (len - 1 - j) n % 10 + 48
  pub ends : div_10s len n ≡ 0
  pub some_ : 0 < len
  pub needed : (len ≡ 1) ⊎ (div_10s (len - 1) n ≢ 0)
  pub terminated : k (p + len) ≡ 0

-- The `len` bytes at `p` and the one behind them are all that may have changed.
abbrev pub OnlyAt : Mem → Mem → ℕ → ℕ → Type 0
OnlyAt m k p len = (b : ℕ) → (b < p) ⊎ (p + len < b) → k b ≡ m b

div_10s-u32 : (n : ℕ) → n < 2 ^ 32 → div_10s 10 n ≡ 0
unfolding div_10s
div_10s-u32 n h = omega arith

positive : (n len : ℕ) → n ≢ 0 → div_10s len n ≡ 0 → 0 < len
unfolding div_10s
positive n zero h e = absurd (h e)
positive n (suc len) h e = omega arith

-- Digits, lowest first, terminated and swapped.
Reversed-Decimal :
    (m k1 k : Mem) (str l n len : ℕ)
    → n ≢ 0
    → LowFirst m k1 (str + l) n len
    → Reversed (write k1 (str + (l + len)) 0) k str l (l + len)
    → Decimal k (str + l) n len
Reversed-Decimal m k1 k str l n len h low rev = record {
  digits = λ j lt.
      let e : str + l + j ≡ str + (l + j) = omega arith in
      let f : str + (l + (l + len) - 1 - (l + j)) ≡ str + l + (len - 1 - j) = omega arith in
      let inside : k (str + (l + j)) ≡ write k1 (str + (l + len)) 0 (str + l + (len - 1 - j)) =
        rw f at (rev.inside (l + j) (omega arith) (omega arith)) in
      rw e (
        inside
        ∙ write_ne k1 (str + (l + len)) 0 (str + l + (len - 1 - j)) (omega arith)
        ∙ low.digits (len - 1 - j) (omega arith));
  ends = low.ends;
  some_ = positive n len h low.ends;
  needed = let lt = positive n len h low.ends in inr (low.needed (len - 1) (omega arith));
  terminated =
      let e : str + l + len ≡ str + (l + len) = omega arith in
      rw e (rev.outside (str + (l + len)) (omega arith) ∙ write_self k1 (str + (l + len)) 0);
}

-- The digits of a number that is not 0, written from the index `l` on.
pub digits-Decimal :
    (str l n : ℕ) (m : Mem)
    → str ≢ 0
    → n ≢ 0
    → n < 2 ^ 32
    → (len : ℕ) × (k : Mem) × (len ≤ 10)
      × ((digits_loop 11 n l str m >>= λ r. swap_str 11 str l r.0 (write r.1 (str + r.0) 0))
          ≡ done k)
      × Decimal k (str + l) n len
      × OnlyAt m k (str + l) len
unfolding swap_str
digits-Decimal str l n m hs hn small =
    let (len, k1, short, run, low) = digits_loop-LowFirst 10 n l str m (div_10s-u32 n small) in
    let (k, swapped, rev) =
      swap_loop-Reversed 10 l (l + len) str (write k1 (str + (l + len)) 0) (omega arith) in
    let test : (str == 0) ≡ false = ground arith in
    (
      len,
      k,
      short,
      rw (run, test) swapped,
      Reversed-Decimal m k1 k str l n len hn low rev,
      λ b o.
          rev.outside b (omega arith)
          ∙ write_ne k1 (str + (l + len)) 0 b (omega arith)
          ∙ low.outside b (omega arith),
    )

zero_digit : (j : ℕ) → 48 ≡ div_10s j 0 % 10 + 48
unfolding div_10s
zero_digit zero = refl
zero_digit (suc j) = zero_digit j

pub zero-Decimal : (k : Mem) (p : ℕ) → k p ≡ 48 → k (p + 1) ≡ 0 → Decimal k p 0 1
unfolding div_10s
zero-Decimal k p digit end = record {
  digits = λ j lt. let e : p + j ≡ p = omega arith in rw e (digit ∙ zero_digit (1 - 1 - j));
  ends = refl;
  some_ = omega arith;
  needed = inl refl;
  terminated = end;
}

-- `uint_to_str` leaves the decimal text of its number, of at most ten digits, and writes no other
-- byte.
pub uint_to_str_lem :
    (str n : ℕ) (m : Mem)
    → str ≢ 0
    → n < 2 ^ 32
    → (len : ℕ) × (k : Mem) × (len ≤ 10)
      × (uint_to_str 11 str n m ≡ done k)
      × Decimal k str n len
      × OnlyAt m k str len
unfolding uint_to_str
uint_to_str_lem str n m hs small = elim (ℕ_discrete n 0) [
  | yes e ↦
      let k = write (write m str 48) (str + 1) 0 in
      let digit : k str ≡ 48 =
        write_ne (write m str 48) (str + 1) 0 str (omega arith) ∙ write_self m str 48 in
      let text = zero-Decimal k str digit (write_self (write m str 48) (str + 1) 0) in
      (
        1,
        k,
        omega arith,
        ground arith,
        rw e text,
        λ b o.
            write_ne (write m str 48) (str + 1) 0 b (omega arith)
            ∙ write_ne m str 48 b (omega arith),
      )
  | no ne ↦
      let (len, k, short, run, text, only) = digits-Decimal str 0 n m hs ne small in
      let e : str + 0 ≡ str = omega arith in
      (len, k, short, ground (arith, run), rw e at text, rw e at only)
]
