-- ===== src/CpuTests/Numbers/Pascal.antt =====
-- pascal.c computes binomial coefficients, without overflow up to N = 31.
use riscv64_cpu.Base.{
  refl, true, zero, suc, ℕ, ◌+◌, ◌≡◌, ◌≤◌, arith, ◌<◌, ◌^◌, leb, leb-true, ◌∙◌, ◌-◌, sym,
}
use riscv64_cpu.Base.Bytes.{Mem, write, write_self, write_ne}
use riscv64_cpu.CpuTests.Numbers.{pascal_inner, pascal, pascal_rows}
use riscv64_cpu.Klib.Memory.{int_max}
use riscv64_cpu.Base.Run.{done}
use native.Mathlib.Nat.{pow-le-pow_right, pow-succ', one-le-pow, add-zero}
use native.Mathlib.Decide.{ℕ_discrete}
use native.Mathlib.Numerals.{add-one}

-- How many subsets of `k` elements a set of `n` has.
unfoldable pub choose : ℕ → ℕ → ℕ
choose n zero = 1
choose zero (suc k) = 0
choose (suc n) (suc k) = choose n k + choose n (suc k)

choose_zero : (n : ℕ) → choose n 0 ≡ 1
unfolding choose
choose_zero zero = refl
choose_zero (suc n) = refl

choose_above : (n k : ℕ) → n < k → choose n k ≡ 0
unfolding choose
choose_above n zero h = absurd (omega arith)
choose_above zero (suc k) h = refl
choose_above (suc n) (suc k) h =
    omega (arith, choose_above n k (omega arith), choose_above n (suc k) (omega arith))

choose_self : (n : ℕ) → choose n n ≡ 1
unfolding choose
choose_self zero = refl
choose_self (suc n) = omega (arith, choose_self n, choose_above n (suc n) (omega arith))

choose_bound : (n k : ℕ) → choose n k ≤ 2 ^ n
unfolding choose
choose_bound zero zero = omega arith
choose_bound zero (suc k) = omega arith
choose_bound (suc n) zero = omega (arith, pow-succ' 2 n, one-le-pow n 2 (omega arith))
choose_bound (suc n) (suc k) =
    omega (arith, pow-succ' 2 n, choose_bound n k, choose_bound n (suc k))

-- A sum in a row up to the 30th is an `int`.
choose_fits : (n k : ℕ) → n ≤ 30 → choose n k ≤ int_max
choose_fits n k h = omega (arith, choose_bound n k, pow-le-pow_right {n = 2} (omega arith) h)

choose_next : (n k : ℕ) → choose n k + choose n (suc k) ≡ choose (suc n) (suc k)
unfolding choose
choose_next n k = refl

-- The array holds a row.
abbrev Row : Mem → ℕ → Type 0
Row a n = (k : ℕ) → k ≤ n → a k ≡ choose n k

-- The inner loop from the index `suc j` on: before it stands the next row, from it on the old one.
inner-Row :
    (left j n : ℕ) (a : Mem)
    → j + left ≡ n
    → suc n ≤ 30
    → ((k : ℕ) → k ≤ j → a k ≡ choose (suc n) k)
    → ((k : ℕ) → j < k → k ≤ n → a k ≡ choose n k)
    → (b : Mem) × (pascal_inner left (suc j) (choose n j) a ≡ done b)
      × ((k : ℕ) → k ≤ n → b k ≡ choose (suc n) k)
unfolding pascal_inner
inner-Row zero j n a e small front back = (a, refl, λ k le. front k (omega arith))
inner-Row (suc left) j n a e small front back =
    let old : a (suc j) ≡ choose n (suc j) = back (suc j) (omega arith) (omega arith) in
    let sum : choose n j + a (suc j) ≡ choose (suc n) (suc j) = rw old (choose_next n j) in
    let fits : leb (choose (suc n) (suc j)) int_max ≡ true =
      leb-true _ _ (choose_fits (suc n) (suc j) small) in
    let a' = write a (suc j) (choose (suc n) (suc j)) in
    let (b, run, row) =
      inner-Row left (suc j) n a' (omega arith) small
        (λ k le. elim (ℕ_discrete k (suc j)) [
          | yes here ↦ rw here (write_self a (suc j) (choose (suc n) (suc j)))
          | no ne ↦
              write_ne a (suc j) (choose (suc n) (suc j)) k (omega arith) ∙ front k (omega arith)
        ])
        (λ k lo hi.
          write_ne a (suc j) (choose (suc n) (suc j)) k (omega arith) ∙ back k (omega arith) hi) in
    (b, rw (sum, fits, old, add-one (suc j)) run, row)

front_zero : (a : Mem) (n k : ℕ) → Row a (suc n) → k ≤ 0 → a k ≡ choose (suc (suc n)) k
unfolding choose
front_zero a n zero row h = row 0 (omega arith)
front_zero a n (suc k) row h = absurd (omega arith)

-- A round of the outer loop.
rows-Row :
    (left n : ℕ) (a : Mem)
    → n + left ≤ 29
    → Row a (suc n)
    → (b : Mem) × (pascal_rows left (suc (suc n)) a ≡ done b) × Row b (suc n + left)
unfolding pascal_rows
rows-Row zero n a small row = (a, refl, rw add-zero row)
rows-Row (suc left) n a small row =
    let first : choose (suc n) 0 ≡ 1 = choose_zero (suc n) in
    let (b, run, inner) =
      inner-Row (suc n) 0 (suc n) a (omega arith) (omega arith) (λ k le. front_zero a n k row le)
        (λ k lo hi. row k hi) in
    let run' : pascal_inner (suc n) 1 1 a ≡ done b = rw first at run in
    let c = write b (suc (suc n)) 1 in
    let row' : Row c (suc (suc n)) = λ k le. elim (ℕ_discrete k (suc (suc n))) [
      | yes last ↦ rw last (write_self b (suc (suc n)) 1 ∙ sym (choose_self (suc (suc n))))
      | no ne ↦ write_ne b (suc (suc n)) 1 k (omega arith) ∙ inner k (omega arith)
    ] in
    let (d, run_d, row_d) = rows-Row left (suc n) c (omega arith) row' in
    let e : suc (suc n) - 1 ≡ suc n = omega arith in
    let f : suc (suc n) + left ≡ suc n + suc left = omega arith in
    (d, rw (e, run', add-one (suc (suc n))) run_d, rw f at row_d)

first-Row : Row (write (write (λ i. 0) 1 1) 0 1) 1
unfolding choose write
first-Row zero h = refl
first-Row (suc zero) h = refl
first-Row (suc (suc k)) h = absurd (omega arith)

-- For `N` from 2 to 31 the program returns the row of binomial coefficients; no sum overflows.
pub pascal_lem :
    (n : ℕ)
    → 2 ≤ n
    → n ≤ 31
    → (a : Mem) × (pascal n ≡ done a) × ((k : ℕ) → k < n → a k ≡ choose (n - 1) k)
unfolding pascal
pascal_lem n lo hi =
    let (a, run, row) = rows-Row (n - 2) 0 _ (omega arith) first-Row in
    let e : 1 + (n - 2) ≡ n - 1 = omega arith in
    let row' : Row a (n - 1) = rw e at row in (a, run, λ k lt. row' k (omega arith))
