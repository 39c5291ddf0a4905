-- ===== src/Klib/Number/Signed.antt =====
-- `int_to_str` as decimal text with a sign.
use riscv64_cpu.Base.{
  zero, suc, refl, [], ◌∷◌, List, ℕ, ◌≤◌, ◌<◌, ◌≡◌, ◌≢◌, length, ◌+◌, ◌-◌, ◌⊎◌, arith, ◌%◌, ◌∙◌,
  inr, ◌==◌, false,
}
use riscv64_cpu.Base.Bytes.{Mem, write, write_self, write_ne}
use riscv64_cpu.Base.Run.{done}
use riscv64_cpu.Klib.Memory.{int_max, ℤ, pos, negsuc}
use riscv64_cpu.Klib.Number.{digits_loop, swap_str, int_to_str, write_text, int_min_text}
use riscv64_cpu.Klib.Number.Digits.{div_10s, swap_loop-Reversed}
use riscv64_cpu.Klib.Number.Text.{Decimal, digits-Decimal, zero-Decimal, OnlyAt}
use native.Mathlib.Decide.{ℕ_discrete}

-- The decimal text of the number, behind a minus sign if it is negative.
abbrev pub IntText : Mem → ℕ → ℤ → ℕ → Type 0
IntText k p (pos n) len = Decimal k p n len
IntText k p (negsuc n) len = (k p ≡ 45) × Decimal k (p + 1) (suc n) len

-- The range of `int`.
abbrev pub IsInt : ℤ → Type 0
IsInt (pos n) = n ≤ int_max
IsInt (negsuc n) = n ≤ int_max

-- What `int_to_str` leaves, and the bytes that it does not write.
abbrev pub Signed : Mem → Mem → ℕ → ℤ → ℕ → Type 0
Signed m k p z len = IntText k p z len × ((b : ℕ) → (b < p) ⊎ (p + len + 1 < b) → k b ≡ m b)

unfoldable char_at : List ℕ → ℕ → ℕ
char_at [] j = 0
char_at (c ∷ s) zero = c
char_at (c ∷ s) (suc j) = char_at s j

write_text-outside :
    (s : List ℕ) (p b : ℕ) (m : Mem) → (b < p) ⊎ (p + length s ≤ b) → write_text s p m b ≡ m b
unfolding write_text
write_text-outside [] p b m h = refl
write_text-outside (c ∷ s) p b m h =
    write_text-outside s (p + 1) b (write m p c) (omega arith) ∙ write_ne m p c b (omega arith)

write_text-at :
    (s : List ℕ) (p j : ℕ) (m : Mem) → j < length s → write_text s p m (p + j) ≡ char_at s j
unfolding write_text char_at
write_text-at [] p j m h = absurd (omega arith)
write_text-at (c ∷ s) p zero m h =
    let e : p + 0 ≡ p = omega arith in
    rw e (write_text-outside s (p + 1) p (write m p c) (omega arith) ∙ write_self m p c)
write_text-at (c ∷ s) p (suc j) m h =
    let e : p + suc j ≡ p + 1 + j = omega arith in
    rw e (write_text-at s (p + 1) j (write m p c) (omega arith))

write_text-first : (s : List ℕ) (p : ℕ) (m : Mem) → 0 < length s → write_text s p m p ≡ char_at s 0
write_text-first s p m h = let e : p + 0 ≡ p = omega arith in rw e at (write_text-at s p 0 m h)

-- The characters behind the sign of "-2147483648" are the digits of its amount.
int_min_digit :
    (j : ℕ) → j < 10 → char_at int_min_text (suc j) ≡ div_10s (10 - 1 - j) 2147483648 % 10 + 48
unfolding char_at div_10s
int_min_digit zero h = refl
int_min_digit (suc zero) h = refl
int_min_digit (suc (suc zero)) h = refl
int_min_digit (suc (suc (suc zero))) h = refl
int_min_digit (suc (suc (suc (suc zero)))) h = refl
int_min_digit (suc (suc (suc (suc (suc zero))))) h = refl
int_min_digit (suc (suc (suc (suc (suc (suc zero)))))) h = refl
int_min_digit (suc (suc (suc (suc (suc (suc (suc zero))))))) h = refl
int_min_digit (suc (suc (suc (suc (suc (suc (suc (suc zero)))))))) h = refl
int_min_digit (suc (suc (suc (suc (suc (suc (suc (suc (suc zero))))))))) h = refl
int_min_digit (suc (suc (suc (suc (suc (suc (suc (suc (suc (suc j)))))))))) h = absurd (omega arith)

int_min-Signed :
    (str : ℕ) (m : Mem) → Signed m (write_text int_min_text str m) str (negsuc int_max) 10
unfolding div_10s char_at
int_min-Signed str m = (
  (
    write_text-first int_min_text str m (omega arith),
    record {
      digits = λ j lt.
          let e : str + 1 + j ≡ str + suc j = omega arith in
          rw e (write_text-at int_min_text str (suc j) m (omega arith) ∙ int_min_digit j lt);
      ends = refl;
      some_ = omega arith;
      needed = inr (omega arith);
      terminated =
          let e : str + 1 + 10 ≡ str + 11 = omega arith in
          rw e (write_text-at int_min_text str 11 m (omega arith));
    },
  ),
  λ b o. write_text-outside int_min_text str b m (omega arith),
)

-- For 0 the loop does nothing, and the swap exchanges the digit with itself.
zero-Signed :
    (str : ℕ) (m : Mem)
    → str ≢ 0
    → (len : ℕ) × (k : Mem) × (len ≤ 10)
      × (int_to_str 11 str (pos 0) m ≡ done k)
      × Signed m k str (pos 0) len
unfolding int_to_str digits_loop swap_str
zero-Signed str m hs =
    let k1 = write m str 48 in
    let k2 = write k1 (str + 1) 0 in
    let (k, swapped, rev) = swap_loop-Reversed 10 0 1 str k2 (omega arith) in
    let test : (str == 0) ≡ false = ground arith in
    let e : str + 0 ≡ str = omega arith in
    let same : k str ≡ k2 str = rw e at (rev.inside 0 (omega arith) (omega arith)) in
    let digit : k2 str ≡ 48 = write_ne k1 (str + 1) 0 str (omega arith) ∙ write_self m str 48 in
    let end : k (str + 1) ≡ 0 = rev.outside (str + 1) (omega arith) ∙ write_self k1 (str + 1) 0 in
    (
      1,
      k,
      omega arith,
      rw test swapped,
      (
        zero-Decimal k str (same ∙ digit) end,
        λ b o.
            rev.outside b (omega arith)
            ∙ write_ne k1 (str + 1) 0 b (omega arith)
            ∙ write_ne m str 48 b (omega arith),
      ),
    )

-- `int_to_str` leaves the decimal text of any `int`, of at most ten digits and its sign.
pub int_to_str_lem :
    (str : ℕ) (z : ℤ) (m : Mem)
    → str ≢ 0
    → IsInt z
    → (len : ℕ) × (k : Mem) × (len ≤ 10) × (int_to_str 11 str z m ≡ done k) × Signed m k str z len
unfolding int_to_str
int_to_str_lem str (pos zero) m hs small = zero-Signed str m hs
int_to_str_lem str (pos (suc n)) m hs small =
    let (len, k, short, run, text, only) =
      digits-Decimal str 0 (suc n) m hs (omega arith) (omega arith) in
    let e : str + 0 ≡ str = omega arith in
    let at_str : OnlyAt m k str len = rw e at only in
    (len, k, short, ground (arith, run), (rw e at text, λ b o. at_str b (omega arith)))
int_to_str_lem str (negsuc n) m hs small = elim (ℕ_discrete n int_max) [
  | yes least ↦ (
    10,
    write_text int_min_text str m,
    omega arith,
    ground arith,
    rw least (int_min-Signed str m),
  )
  | no more ↦
      let (len, k, short, run, text, only) =
        digits-Decimal str 1 (suc n) (write m str 45) hs (omega arith) (omega arith) in
      (
        len,
        k,
        short,
        ground (arith, run),
        (
          (only str (omega arith) ∙ write_self m str 45, text),
          λ b o. only b (omega arith) ∙ write_ne m str 45 b (omega arith),
        ),
      )
]
