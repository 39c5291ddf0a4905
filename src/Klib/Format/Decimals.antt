-- ===== src/Klib/Format/Decimals.antt =====
-- Decimal text as a list of characters.
use riscv64_cpu.Base.{
  inl, inr, zero, suc, refl, [], ◌∷◌, true, false, List, ℕ, ◌%◌, ◌/◌, ◌<◌, ◌≡◌, ◌≤◌, if◌then◌else◌,
  length, ◌+◌, ◌⊎◌, ltb, ◌-◌, ◌≢◌, arith, ap, sym, ◌∙◌,
}
use riscv64_cpu.Klib.Memory.{Str, ℤ, pos, negsuc}
use riscv64_cpu.Klib.Number.Digits.{div_10s}
use riscv64_cpu.Klib.Number.Text.{Decimal}
use riscv64_cpu.Klib.Number.Signed.{IntText}
use native.Mathlib.Decide.{dec_lt}

-- The `len` lowest digits, the highest first.
unfoldable pub digit_list : ℕ → ℕ → List ℕ
digit_list zero n = []
digit_list (suc len) n = (div_10s len n % 10 + 48) ∷ digit_list len n

unfoldable pub digit_count : ℕ → ℕ → ℕ
digit_count zero n = 1
digit_count (suc fuel) n =
    let more = suc (digit_count fuel (n / 10)) in if ltb n 10 then 1 else more

-- A number below 10 ^ 10 in decimal, without needless zeros.
unfoldable pub decimal : ℕ → List ℕ
unfolding digit_list digit_count
decimal n = digit_list (digit_count 9 n) n

unfoldable pub int_text : ℤ → List ℕ
unfolding decimal
int_text (pos n) = decimal n
int_text (negsuc n) = b'-' ∷ decimal (suc n)

div_10s-zero : (len : ℕ) → div_10s len 0 ≡ 0
unfolding div_10s
div_10s-zero zero = refl
div_10s-zero (suc len) = div_10s-zero len

digit_count_unique :
    (fuel len n : ℕ)
    → len ≤ fuel
    → div_10s (suc len) n ≡ 0
    → (suc len ≡ 1) ⊎ (div_10s len n ≢ 0)
    → suc len ≡ digit_count fuel n
unfolding digit_count div_10s
digit_count_unique zero len n le ends needed = omega arith
digit_count_unique (suc fuel) zero n le ends needed =
    let test : ltb n 10 ≡ true = ground arith in rw test refl
digit_count_unique (suc fuel) (suc len) n le ends needed = elim (dec_lt n 10) [
  | yes small ↦
      let z : n / 10 ≡ 0 = omega arith in
      elim needed [
        | inl e ↦ absurd (omega arith)
        | inr ne ↦ absurd (ne (ap (div_10s len) z ∙ div_10s-zero len))
      ]
  | no large ↦
      let test : ltb n 10 ≡ false = ground arith in
      rw test (
        ap suc (
          digit_count_unique fuel len (n / 10) (omega arith) ends
            (elim needed [ inl e ↦ absurd (omega arith) | inr ne ↦ inr ne ])))
]

digit_list-length : (len n : ℕ) → length (digit_list len n) ≡ len
unfolding digit_list
digit_list-length zero n = refl
digit_list-length (suc len) n = ap suc (digit_list-length len n)

digit_list-Str :
    (k : ℕ → ℕ) (p n len : ℕ)
    → ((j : ℕ) → j < len → k (p + j) ≡ div_10s (len - 1 - j) n % 10 + 48)
    → k (p + len) ≡ 0
    → Str k p (digit_list len n)
unfolding digit_list
digit_list-Str k p n zero h end = let e : p + 0 ≡ p = omega arith in rw e at end
digit_list-Str k p n (suc len) h end = (
  let e : p + 0 ≡ p = omega arith in
      let f : suc len - 1 - 0 ≡ len = omega arith in rw (e, f) at (h 0 (omega arith)),
  omega arith,
  digit_list-Str k (p + 1) n len
      (λ j lt.
        let e : p + suc j ≡ p + 1 + j = omega arith in
        let f : suc len - 1 - suc j ≡ len - 1 - j = omega arith in
        rw (e, f) at (h (suc j) (omega arith)))
      (let e : p + suc len ≡ p + 1 + len = omega arith in rw e at end),
)

decimal_lem : (n : ℕ) → decimal n ≡ digit_list (digit_count 9 n) n
unfolding decimal
decimal_lem n = refl

Decimal-count : (k : ℕ → ℕ) (p n len : ℕ) → Decimal k p n len → len ≤ 10 → len ≡ digit_count 9 n
Decimal-count k p n zero d le = absurd (omega (arith, d.some_))
Decimal-count k p n (suc len) d le =
    let e : suc len - 1 ≡ len = omega arith in
    digit_count_unique 9 len n (omega arith) d.ends (rw e at d.needed)

-- The text that the digits in memory are.
pub Decimal-Str :
    (k : ℕ → ℕ) (p n len : ℕ)
    → Decimal k p n len
    → len ≤ 10
    → Str k p (decimal n) × (length (decimal n) ≡ len)
Decimal-Str k p n len d le =
    rw (decimal_lem n, sym (Decimal-count k p n len d le))
      (digit_list-Str k p n len d.digits d.terminated, digit_list-length len n)

pub IntText-Str :
    (k : ℕ → ℕ) (p len : ℕ) (z : ℤ)
    → IntText k p z len
    → len ≤ 10
    → Str k p (int_text z) × (length (int_text z) ≤ 11) × (length (int_text z) ≤ len + 1)
unfolding int_text
IntText-Str k p len (pos n) d le =
    let (h, e) = Decimal-Str k p n len d le in (h, omega arith, omega arith)
IntText-Str k p len (negsuc n) d le =
    let (h, e) = Decimal-Str k (p + 1) (suc n) len d.1 le in
    ((d.0, omega arith, h), omega arith, omega arith)
