-- ===== src/Base/Xor.antt =====
-- `^` at variables.
use Prim.Native.Nat.{
  ℕ, zero, suc, ◌+◌, ◌*◌, ◌/◌, ◌%◌, ◌^◌, ◌≤◌, ◌<◌, bit_xor, bit_xor-bitwise, differ,
}
use mathlib.Core.Path.{◌≡◌, refl, sym, ap, ◌∙◌}
use native.Mathlib.Nat.{le_refl, pow-succ', div-div-eq-div-mul}
use native.Mathlib.Omega.{arith}
use riscv64_cpu.Base.Bits.{bitwise-digit, mod-two_split, mul-pow_suc}

differ_lem : (a b : ℕ) → a < 2 → b < 2 → differ a b ≡ (a + b) % 2
differ_lem zero b ha hb = omega arith
differ_lem (suc zero) zero ha hb = refl
differ_lem (suc zero) (suc zero) ha hb = refl
differ_lem (suc zero) (suc (suc b)) ha hb = absurd (omega arith)
differ_lem (suc (suc a)) b ha hb = absurd (omega arith)

pub bit_xor_digit : (a b : ℕ) → bit_xor a b ≡ bit_xor (a / 2) (b / 2) * 2 + (a % 2 + b % 2) % 2
bit_xor_digit zero b = simp bit_xor-bitwise (omega arith)
bit_xor_digit (suc a) b =
    let bits = differ_lem (suc a % 2) (b % 2) (omega arith) (omega arith) in
    simp bit_xor-bitwise (bitwise-digit (λ y. y) differ a b ∙ omega (arith, bits))

pub half-bit_xor : (a b : ℕ) → bit_xor a b / 2 ≡ bit_xor (a / 2) (b / 2)
half-bit_xor a b = omega (arith, bit_xor_digit a b)

pub mod-bit_xor : (a b : ℕ) → bit_xor a b % 2 ≡ (a % 2 + b % 2) % 2
mod-bit_xor a b = omega (arith, bit_xor_digit a b)

comm_below : (n a b : ℕ) → a ≤ n → b ≤ n → bit_xor a b ≡ bit_xor b a
comm_below zero zero zero p q = refl
comm_below zero zero (suc b) p q = absurd (omega arith)
comm_below zero (suc a) b p q = absurd (omega arith)
comm_below (suc n) a b p q = omega (
  arith,
  bit_xor_digit a b,
  bit_xor_digit b a,
  comm_below n (a / 2) (b / 2) (omega arith) (omega arith),
)

pub bit_xor_comm : (a b : ℕ) → bit_xor a b ≡ bit_xor b a
bit_xor_comm a b = comm_below (a + b) a b (omega arith) (omega arith)

right_below : (n a b c : ℕ) → a + b + c ≤ n → bit_xor (bit_xor a b) c ≡ bit_xor (bit_xor a c) b
right_below zero zero zero zero p = refl
right_below zero (suc a) b c p = absurd (omega arith)
right_below zero zero (suc b) c p = absurd (omega arith)
right_below zero zero zero (suc c) p = absurd (omega arith)
right_below (suc n) a b c p = omega (
  arith,
  bit_xor_digit (bit_xor a b) c,
  bit_xor_digit (bit_xor a c) b,
  mod-bit_xor a b,
  mod-bit_xor a c,
  ap (λ (t : ℕ). bit_xor t (c / 2)) (half-bit_xor a b),
  ap (λ (t : ℕ). bit_xor t (b / 2)) (half-bit_xor a c),
  right_below n (a / 2) (b / 2) (c / 2) (omega arith),
)

pub bit_xor_right_comm : (a b c : ℕ) → bit_xor (bit_xor a b) c ≡ bit_xor (bit_xor a c) b
bit_xor_right_comm a b c = right_below (a + b + c) a b c (le_refl (a + b + c))

-- Two numbers of `k` bits.
pub bit_xor_lt : (k a b : ℕ) → a < 2 ^ k → b < 2 ^ k → bit_xor a b < 2 ^ k
bit_xor_lt zero zero zero p q = p
bit_xor_lt zero (suc a) b p q = absurd (omega arith)
bit_xor_lt zero zero (suc b) p q = absurd (omega arith)
bit_xor_lt (suc k) a b p q = omega (
  arith,
  bit_xor_digit a b,
  pow-succ' 2 k,
  bit_xor_lt k (a / 2) (b / 2) (omega (arith, pow-succ' 2 k)) (omega (arith, pow-succ' 2 k)),
)

pub bit_xor-zero : (a : ℕ) → bit_xor a 0 ≡ a
bit_xor-zero a = bit_xor_comm a 0 ∙ simp bit_xor-bitwise refl

-- The low and the high part of a number.
pub bit_xor_parts : (k x : ℕ) → bit_xor (x % 2 ^ k) (x / 2 ^ k * 2 ^ k) ≡ x
bit_xor_parts zero x =
    let low : x % 1 ≡ 0 = omega arith in
    let high : x / 1 * 1 ≡ x = omega arith in rw (low, high, bit_xor_comm 0 x) (bit_xor-zero x)
bit_xor_parts (suc k) x =
    let h = x / 2 / 2 ^ k in
    let above : x / 2 ^ suc k ≡ h = rw (pow-succ' 2 k) (sym (div-div-eq-div-mul x 2 (2 ^ k))) in
    let low : x % 2 ^ suc k ≡ x % 2 + 2 * (x / 2 % 2 ^ k) = mod-two_split k x in
    rw (above, mul-pow_suc h k, low)
      (omega (
        arith,
        bit_xor_digit (x % 2 + 2 * (x / 2 % 2 ^ k)) (h * 2 ^ k * 2),
        ap (λ (t : ℕ). bit_xor t (h * 2 ^ k * 2 / 2)) low_half,
        ap (λ (t : ℕ). bit_xor (x / 2 % 2 ^ k) t) high_half,
        bit_xor_parts k (x / 2),
      ))
  where
    low_half : (x % 2 + 2 * (x / 2 % 2 ^ k)) / 2 ≡ x / 2 % 2 ^ k
    low_half = omega arith

    high_half : x / 2 / 2 ^ k * 2 ^ k * 2 / 2 ≡ x / 2 / 2 ^ k * 2 ^ k
    high_half = omega arith
