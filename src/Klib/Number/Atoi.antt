-- ===== src/Klib/Number/Atoi.antt =====
-- `atoi` of decimal text.
use riscv64_cpu.Base.{
  zero, suc, refl, ℕ, ◌<◌, ◌≡◌, ◌≤◌, arith, ◌%◌, ◌+◌, ◌-◌, ◌/◌, leb, ◌*◌, ◌∙◌, ◌≢◌, true, false,
  sym, ap,
}
use riscv64_cpu.Base.Bytes.{Mem}
use riscv64_cpu.Base.Run.{Run, done, fault}
use riscv64_cpu.Klib.Memory.{int_max, ℤ, pos, negsuc}
use riscv64_cpu.Klib.Number.{atoi, atoi_loop, skip_spaces, uint_to_str, int_to_str}
use riscv64_cpu.Klib.Number.Digits.{div_10s, div_10s-suc}
use riscv64_cpu.Klib.Number.Text.{Decimal, uint_to_str_lem}
use native.Mathlib.Decide.{dec_le}
use riscv64_cpu.Klib.Number.Signed.{IsInt, int_to_str_lem}

div_10s-le : (k n : ℕ) → div_10s k n ≤ n
unfolding div_10s
div_10s-le zero n = omega arith
div_10s-le (suc k) n = omega (arith, div_10s-le k (n / 10))

-- The digits of `n` below the index `left`, from `q` on.
abbrev Rest : Mem → ℕ → ℕ → ℕ → Type 0
Rest m q n left =
    ((j : ℕ) → j < left → m (q + j) ≡ div_10s (left - 1 - j) n % 10 + 48) × (m (q + left) ≡ 0)

Rest-step :
    (m : Mem) (q n left : ℕ)
    → Rest m q n (suc left)
    → (m q ≡ div_10s left n % 10 + 48) × Rest m (q + 1) n left
Rest-step m q n left h =
    let e : q + 0 ≡ q = omega arith in
    let f : suc left - 1 - 0 ≡ left = omega arith in
    (
      rw (e, f) at (h.0 0 (omega arith)),
      (
        λ j lt.
            let e : q + 1 + j ≡ q + suc j = omega arith in
            let f : suc left - 1 - suc j ≡ left - 1 - j = omega arith in
            rw e (rw f at (h.0 (suc j) (omega arith))),
        let e : q + 1 + left ≡ q + suc left = omega arith in rw e h.1,
      ),
    )

-- A digit is taken if the sum with its character is an `int`.
atoi_loop-digit :
    (fuel q d n : ℕ) (m : Mem)
    → m q ≡ d % 10 + 48
    → d + 48 ≤ int_max
    → atoi_loop (suc fuel) m q (d / 10) ≡ atoi_loop fuel m (q + 1) d
unfolding atoi_loop
atoi_loop-digit fuel q d n m c fits =
    let next : d / 10 * 10 + m q - 48 ≡ d = omega arith in
    let above : leb 48 (m q) ≡ true = ground arith in
    let below : leb (m q) 57 ≡ true = ground arith in
    let small : leb (d / 10 * 10 + m q) int_max ≡ true = ground arith in
    rw (above, below, small, next) refl

atoi_loop-too_large :
    (fuel q d n : ℕ) (m : Mem)
    → m q ≡ d % 10 + 48
    → int_max < d + 48
    → atoi_loop (suc fuel) m q (d / 10) ≡ fault
unfolding atoi_loop
atoi_loop-too_large fuel q d n m c big =
    let above : leb 48 (m q) ≡ true = ground arith in
    let below : leb (m q) 57 ≡ true = ground arith in
    let large : leb (d / 10 * 10 + m q) int_max ≡ false = ground arith in
    rw (above, below, large) refl

atoi_loop-fits :
    (left fuel q n : ℕ) (m : Mem)
    → Rest m q n left
    → left < fuel
    → n + 48 ≤ int_max
    → atoi_loop fuel m q (div_10s left n) ≡ done n
unfolding atoi_loop div_10s
atoi_loop-fits left zero q n m h lt fits = absurd (omega arith)
atoi_loop-fits zero (suc fuel) q n m h lt fits =
    let e : q + 0 ≡ q = omega arith in let end : m q ≡ 0 = rw e at h.1 in rw end refl
atoi_loop-fits (suc left) (suc fuel) q n m h lt fits =
    let (c, rest) = Rest-step m q n left h in
    rw (div_10s-suc left n) (
      atoi_loop-digit fuel q (div_10s left n) n m c (omega (arith, div_10s-le left n))
      ∙ atoi_loop-fits left fuel (q + 1) n m rest (omega arith) fits)

atoi_loop-overflows :
    (left fuel q n : ℕ) (m : Mem)
    → Rest m q n (suc left)
    → suc left < fuel
    → int_max < n + 48
    → atoi_loop fuel m q (div_10s (suc left) n) ≡ fault
unfolding div_10s
atoi_loop-overflows left zero q n m h lt big = absurd (omega arith)
atoi_loop-overflows zero (suc fuel) q n m h lt big =
    let (c, rest) = Rest-step m q n 0 h in atoi_loop-too_large fuel q n n m c big
atoi_loop-overflows (suc left) (suc fuel) q n m h lt big =
    let (c, rest) = Rest-step m q n (suc left) h in
    elim (dec_le (div_10s (suc left) n + 48) int_max) [
      | yes fits ↦ rw (div_10s-suc (suc left) n) (
          atoi_loop-digit fuel q (div_10s (suc left) n) n m c fits
          ∙ atoi_loop-overflows left fuel (q + 1) n m rest (omega arith) big)
      | no large ↦
          rw (div_10s-suc (suc left) n)
            (atoi_loop-too_large fuel q (div_10s (suc left) n) n m c (omega arith))
    ]

skip_spaces-stop : (fuel : ℕ) (m : Mem) (p : ℕ) → m p ≢ 32 → skip_spaces (suc fuel) m p ≡ done p
unfolding skip_spaces
skip_spaces-stop fuel m p h = ground arith

atoi-atoi_loop :
    (fuel p x : ℕ) (m : Mem) (r : Run ℕ)
    → m p ≢ 32
    → x ≡ 0
    → atoi_loop (suc fuel) m p x ≡ r
    → atoi (suc fuel) m p ≡ r
unfolding atoi
atoi-atoi_loop fuel p x m r h e run =
    rw (skip_spaces-stop fuel m p h) (ap (λ t. atoi_loop (suc fuel) m p t) (sym e) ∙ run)

-- `atoi` of a decimal text gives the number, if the number and the character '0' together are an
-- `int`; the sum of a larger one overflows.
pub atoi-Decimal :
    (fuel p n len : ℕ) (m : Mem)
    → Decimal m p n len
    → len < fuel
    → (n + 48 ≤ int_max → atoi fuel m p ≡ done n) × (int_max < n + 48 → atoi fuel m p ≡ fault)
atoi-Decimal zero p n len m text lt = absurd (omega arith)
atoi-Decimal (suc fuel) p n zero m text lt = absurd (omega (arith, text.some_))
atoi-Decimal (suc fuel) p n (suc len) m text lt =
    let rest : Rest m p n (suc len) = (text.digits, text.terminated) in
    let (c, r) = Rest-step m p n len rest in
    let first : m p ≢ 32 = omega (arith, c) in
    (
      λ fits.
          atoi-atoi_loop fuel p (div_10s (suc len) n) m (done n) first text.ends
            (atoi_loop-fits (suc len) (suc fuel) p n m rest lt fits),
      λ big.
          atoi-atoi_loop fuel p (div_10s (suc len) n) m fault first text.ends
            (atoi_loop-overflows len (suc fuel) p n m rest lt big),
    )

-- `atoi` gives back the number that `uint_to_str` writes.
pub atoi-uint_to_str :
    (str n : ℕ) (m : Mem)
    → str ≢ 0
    → n + 48 ≤ int_max
    → (k : Mem) × (uint_to_str 11 str n m ≡ done k) × (atoi 11 k str ≡ done n)
atoi-uint_to_str str n m hs fits =
    let (len, k, short, run, text, only) = uint_to_str_lem str n m hs (omega arith) in
    (k, run, (atoi-Decimal 11 str n len k text (omega arith)).0 fits)

atoi_loop-stop : (fuel p : ℕ) (m : Mem) → m p < 48 → atoi_loop (suc fuel) m p 0 ≡ done 0
unfolding atoi_loop
atoi_loop-stop fuel p m h = ground arith

-- What `atoi` reads of the text of an `int`: it does not know the sign.
abbrev pub amount_read : ℤ → ℕ
amount_read (pos n) = n
amount_read (negsuc n) = 0

-- `atoi` gives back a number that `int_to_str` writes unless it is negative, and 0 if it is.
pub atoi-int_to_str :
    (str : ℕ) (z : ℤ) (m : Mem)
    → str ≢ 0
    → IsInt z
    → amount_read z + 48 ≤ int_max
    → (k : Mem) × (int_to_str 11 str z m ≡ done k) × (atoi 11 k str ≡ done (amount_read z))
atoi-int_to_str str (pos n) m hs h fits =
    let (len, k, short, run, (text, only)) = int_to_str_lem str (pos n) m hs h in
    (k, run, (atoi-Decimal 11 str n len k text (omega arith)).0 fits)
atoi-int_to_str str (negsuc n) m hs h fits =
    let (len, k, short, run, (text, only)) = int_to_str_lem str (negsuc n) m hs h in
    (
      k,
      run,
      atoi-atoi_loop 10 str 0 k (done 0) (omega (arith, text.0)) refl
          (atoi_loop-stop 10 str k (omega (arith, text.0))),
    )
