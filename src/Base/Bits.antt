-- ===== src/Base/Bits.antt =====
-- `&` and `|` at variables, from the digit recursion that the native operations stand for.
use Prim.Native.Nat.{
  ℕ, zero, suc, ◌+◌, ◌-◌, ◌*◌, ◌/◌, ◌%◌, ◌^◌, ◌≤◌, ◌<◌, min, max, bit_and, bit_or, digits, bitwise,
  bit_and-bitwise, bit_or-bitwise,
}
use mathlib.Core.Path.{◌≡◌, refl, ap, ◌∙◌}
use native.Mathlib.Nat.{
  le_refl, pow-succ', one-le-pow, mod-lt, div-add-mod, div-div-eq-div-mul, mod-eq_of_lt,
  mul-add-mod_self_left, mul_left_comm,
}
use native.Mathlib.Omega.{arith}

module _ (z : ℕ → ℕ) (f : ℕ → ℕ → ℕ) where
  -- More fuel than the number has digits changes nothing.
  digits_enough : (n m a b : ℕ) → a ≤ n → a ≤ m → digits z f n a b ≡ digits z f m a b
  digits_enough zero zero a b p q = refl
  digits_enough zero (suc m) zero b p q = refl
  digits_enough zero (suc m) (suc a) b p q = absurd (omega arith)
  digits_enough (suc n) zero zero b p q = refl
  digits_enough (suc n) zero (suc a) b p q = absurd (omega arith)
  digits_enough (suc n) (suc m) zero b p q = refl
  digits_enough (suc n) (suc m) (suc a) b p q =
      rw (digits_enough n m (suc a / 2) (b / 2) (omega arith) (omega arith))

  pub bitwise-digit :
      (a b : ℕ)
      → bitwise z f (suc a) b ≡ bitwise z f (suc a / 2) (b / 2) * 2 + f (suc a % 2) (b % 2)
  bitwise-digit a b =
      omega (arith, digits_enough a (suc a / 2) (suc a / 2) (b / 2) (omega arith) (le_refl _))

pub bit_and_digit : (a b : ℕ) → bit_and a b ≡ bit_and (a / 2) (b / 2) * 2 + min (a % 2) (b % 2)
bit_and_digit zero b = simp bit_and-bitwise (omega arith)
bit_and_digit (suc a) b = simp bit_and-bitwise (bitwise-digit (λ y. 0) min a b)

pub bit_or_digit : (a b : ℕ) → bit_or a b ≡ bit_or (a / 2) (b / 2) * 2 + max (a % 2) (b % 2)
bit_or_digit zero b = simp bit_or-bitwise (omega arith)
bit_or_digit (suc a) b = simp bit_or-bitwise (bitwise-digit (λ y. y) max a b)

-- A remainder by a product, in two steps.
pub mod-mul_split : (c m d : ℕ) → 0 < c → 0 < m → d % (c * m) ≡ d % c + c * (d / c % m)
mod-mul_split c m d hc hm =
    ap (λ t. t % (c * m)) regroup
    ∙ mul-add-mod_self_left (c * m) (d / c / m) (d % c + c * (d / c % m))
    ∙ mod-eq_of_lt below
  where
    regroup : d ≡ c * m * (d / c / m) + (d % c + c * (d / c % m))
    regroup = grind (arith, div-add-mod d c, ap (λ (t : ℕ). c * t) (div-add-mod (d / c) m))

    below : d % c + c * (d / c % m) < c * m
    below = grind (arith, mod-lt d hc, mod-lt (d / c) hm)

pub mod-two_split : (n x : ℕ) → x % 2 ^ suc n ≡ x % 2 + 2 * (x / 2 % 2 ^ n)
mod-two_split n x =
    rw (pow-succ' 2 n) (mod-mul_split 2 (2 ^ n) x (omega arith) (one-le-pow n 2 (omega arith)))

pub mul-pow_suc : (h k : ℕ) → h * 2 ^ suc k ≡ h * 2 ^ k * 2
mul-pow_suc h k = rw (pow-succ' 2 k) (omega (arith, mul_left_comm h 2 (2 ^ k)))

bit_and-zero_below : (n a : ℕ) → a ≤ n → bit_and a 0 ≡ 0
bit_and-zero_below n zero h = refl
bit_and-zero_below zero (suc a) h = absurd (omega arith)
bit_and-zero_below (suc n) (suc a) h =
    omega (arith, bit_and_digit (suc a) 0, bit_and-zero_below n (suc a / 2) (omega arith))

pub bit_and-zero : (a : ℕ) → bit_and a 0 ≡ 0
bit_and-zero a = bit_and-zero_below a a (le_refl a)

-- A mask of `k` low bits is the remainder by `2 ^ k`.
pub bit_and_mask : (k a : ℕ) → bit_and a (2 ^ k - 1) ≡ a % 2 ^ k
bit_and_mask zero a = omega (arith, bit_and-zero a)
bit_and_mask (suc k) a = omega (
  arith,
  bit_and_digit a (2 ^ suc k - 1),
  pow-succ' 2 k,
  one-le-pow k 2 (omega arith),
  ap (λ (t : ℕ). bit_and (a / 2) t) half,
  bit_and_mask k (a / 2),
  ap (λ (t : ℕ). a % t) (pow-succ' 2 k),
  mod-mul_split 2 (2 ^ k) a (omega arith) (one-le-pow k 2 (omega arith)),
)
  where
    half : (2 ^ suc k - 1) / 2 ≡ 2 ^ k - 1
    half = omega (arith, pow-succ' 2 k, one-le-pow k 2 (omega arith))

bit_or-zero_below : (n a : ℕ) → a ≤ n → bit_or a 0 ≡ a
bit_or-zero_below n zero h = refl
bit_or-zero_below zero (suc a) h = absurd (omega arith)
bit_or-zero_below (suc n) (suc a) h =
    omega (arith, bit_or_digit (suc a) 0, bit_or-zero_below n (suc a / 2) (omega arith))

pub bit_or-zero : (a : ℕ) → bit_or a 0 ≡ a
bit_or-zero a = bit_or-zero_below a a (le_refl a)

-- Setting the lowest bit of an even number.
pub bit_or_one : (a : ℕ) → bit_or (2 * a) 1 ≡ 2 * a + 1
bit_or_one a = omega (arith, bit_or_digit (2 * a) 1, bit_or-zero (2 * a / 2))

-- Masks and numbers of high bits.
pub bit_and-high : (k m a : ℕ) → bit_and a (m * 2 ^ k) ≡ bit_and (a / 2 ^ k) m * 2 ^ k
bit_and-high zero m a =
    let p : a / 1 ≡ a = omega arith in let q : m * 1 ≡ m = omega arith in rw (p, q) (omega arith)
bit_and-high (suc k) m a =
    let d : a / 2 ^ suc k ≡ a / 2 / 2 ^ k =
      omega (arith, ap (λ (t : ℕ). a / t) (pow-succ' 2 k), div-div-eq-div-mul a 2 (2 ^ k)) in
    let half : m * 2 ^ suc k / 2 ≡ m * 2 ^ k = omega (arith, mul-pow_suc m k) in
    let even : m * 2 ^ suc k % 2 ≡ 0 = omega (arith, mul-pow_suc m k) in
    omega (
      arith,
      bit_and_digit a (m * 2 ^ suc k),
      mul-pow_suc (bit_and (a / 2 ^ suc k) m) k,
      ap (λ t. bit_and t m * 2 ^ k) d,
      ap (λ t. bit_and (a / 2) t) half,
      bit_and-high k m (a / 2),
    )

-- Bits that are set below an aligned number.
pub bit_or-high :
    (k h a b : ℕ) → a < 2 ^ k → b < 2 ^ k → bit_or (h * 2 ^ k + a) b ≡ h * 2 ^ k + bit_or a b
bit_or-high zero h a b x y =
    let z : a ≡ 0 = omega (arith, x) in
    let z2 : b ≡ 0 = omega (arith, y) in rw (z, z2) (bit_or-zero (h * 1 + 0) ∙ omega arith)
bit_or-high (suc k) h a b x y =
    let d : (h * 2 ^ suc k + a) / 2 ≡ h * 2 ^ k + a / 2 = omega (arith, mul-pow_suc h k) in
    omega (
      arith,
      bit_or_digit (h * 2 ^ suc k + a) b,
      bit_or_digit a b,
      ap (λ t. bit_or t (b / 2)) d,
      mul-pow_suc h k,
      bit_or-high k h (a / 2) (b / 2) (omega (arith, x, pow-succ' 2 k))
          (omega (arith, y, pow-succ' 2 k)),
    )
