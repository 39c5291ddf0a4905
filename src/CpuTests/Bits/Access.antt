-- ===== src/CpuTests/Bits/Access.antt =====
-- `getbit` after `setbit`.
use riscv64_cpu.Base.{
  true, false, zero, suc, refl, ℕ, bit_and, bit_or, ◌%◌, ◌<◌, ◌^◌, ◌≡◌, ◌≤◌, arith, if◌then◌else◌,
  min, ◌-◌, ◌/◌, ◌==◌, ◌∙◌, Bool,
}
use riscv64_cpu.Base.Bytes.{Mem, write_self, write_ne}
use riscv64_cpu.Base.Bits.{mod-two_split, bit_and_digit, bit_or_digit, bit_and-zero}
use riscv64_cpu.CpuTests.Bits.{getbit, setbit, bit_mask}
use Prim.Native.Nat.{max}
use native.Mathlib.Nat.{pow-succ', one-le-pow, mod-eq_of_lt, pow-le-pow_right}
use riscv64_cpu.Base.Words.{u8}
use native.Mathlib.Decide.{ℕ_discrete}

-- The bit `k` of a number.
unfoldable testbit : ℕ → ℕ → ℕ
testbit zero x = x % 2
testbit (suc k) x = testbit k (x / 2)

testbit-bit_or : (k x y : ℕ) → testbit k (bit_or x y) ≡ max (testbit k x) (testbit k y)
unfolding testbit
testbit-bit_or zero x y = omega (arith, bit_or_digit x y)
testbit-bit_or (suc k) x y =
    let half : bit_or x y / 2 ≡ bit_or (x / 2) (y / 2) = omega (arith, bit_or_digit x y) in
    rw half (testbit-bit_or k (x / 2) (y / 2))

testbit-bit_and : (k x y : ℕ) → testbit k (bit_and x y) ≡ min (testbit k x) (testbit k y)
unfolding testbit
testbit-bit_and zero x y = omega (arith, bit_and_digit x y)
testbit-bit_and (suc k) x y =
    let half : bit_and x y / 2 ≡ bit_and (x / 2) (y / 2) = omega (arith, bit_and_digit x y) in
    rw half (testbit-bit_and k (x / 2) (y / 2))

testbit_le : (k x : ℕ) → testbit k x ≤ 1
unfolding testbit
testbit_le zero x = omega arith
testbit_le (suc k) x = testbit_le k (x / 2)

half_pow : (k : ℕ) → 2 ^ suc k / 2 ≡ 2 ^ k
half_pow k = omega (arith, pow-succ' 2 k)

testbit-zero : (k : ℕ) → testbit k 0 ≡ 0
unfolding testbit
testbit-zero zero = refl
testbit-zero (suc k) = testbit-zero k

testbit-pow : (j k : ℕ) → testbit j (2 ^ k) ≡ (if j == k then 1 else 0)
unfolding testbit
testbit-pow zero zero = refl
testbit-pow zero (suc k) = ground (arith, pow-succ' 2 k)
testbit-pow (suc j) zero = rw (testbit-zero j) (ground arith)
testbit-pow (suc j) (suc k) = rw (half_pow k) (testbit-pow j k ∙ ground arith)

-- The bits of a complement.
testbit_complement : (n k y : ℕ) → k < n → y < 2 ^ n → testbit k (2 ^ n - 1 - y) ≡ 1 - testbit k y
unfolding testbit
testbit_complement zero k y h lt = absurd (omega arith)
testbit_complement (suc n) zero y h lt = omega (arith, pow-succ' 2 n, one-le-pow n 2 (omega arith))
testbit_complement (suc n) (suc k) y h lt =
    let half : (2 ^ suc n - 1 - y) / 2 ≡ 2 ^ n - 1 - y / 2 = omega (arith, pow-succ' 2 n) in
    rw half (testbit_complement n k (y / 2) (omega arith) (omega (arith, pow-succ' 2 n)))

-- The bits a remainder keeps.
testbit_mod : (n k x : ℕ) → k < n → testbit k (x % 2 ^ n) ≡ testbit k x
unfolding testbit
testbit_mod zero k x h = absurd (omega arith)
testbit_mod (suc n) zero x h = omega (arith, mod-two_split n x)
testbit_mod (suc n) (suc k) x h =
    let half : x % 2 ^ suc n / 2 ≡ x / 2 % 2 ^ n = omega (arith, mod-two_split n x) in
    rw half (testbit_mod n k (x / 2) (omega arith))

bit_and-pow : (k x : ℕ) → bit_and x (2 ^ k) ≡ (if testbit k x == 1 then 2 ^ k else 0)
unfolding testbit
bit_and-pow zero x = ground (arith, bit_and_digit x 1, bit_and-zero (x / 2))
bit_and-pow (suc k) x =
    ground (arith, bit_and_digit x (2 ^ suc k), half_pow k, bit_and-pow k (x / 2), pow-succ' 2 k)

-- The mask is the power of two.
mask_lem : (o : ℕ) → bit_mask o ≡ 2 ^ (o % 8)
mask_lem o = mod-eq_of_lt below
  where
    below : 2 ^ (o % 8) < 256
    below =
        let most : 2 ^ (o % 8) ≤ 2 ^ 7 = pow-le-pow_right (omega arith) {j = 7} (omega arith) in
        omega arith

testbit-getbit : (buf : Mem) (o : ℕ) → getbit buf o ≡ (testbit (o % 8) (buf (o / 8)) == 1)
unfolding getbit
testbit-getbit buf o = ground (
  arith,
  mask_lem o,
  bit_and-pow (o % 8) (buf (o / 8)),
  one-le-pow (o % 8) 2 (omega arith),
  testbit_le (o % 8) (buf (o / 8)),
)

-- The byte `setbit` writes, bit by bit.
set_byte : Mem → ℕ → Bool → ℕ
set_byte buf o b =
    if b then u8 (bit_or (buf (o / 8)) (bit_mask o)) else bit_and (buf (o / 8)) (255 - bit_mask o)

testbit-set_byte :
    (buf : Mem) (o k : ℕ) (b : Bool)
    → k < 8
    → (testbit k (set_byte buf o b) == 1)
      ≡ (if k == o % 8 then b else (testbit k (buf (o / 8)) == 1))
unfolding set_byte
testbit-set_byte buf o k true lt = ground (
  arith,
  mask_lem o,
  testbit_mod 8 k (bit_or (buf (o / 8)) (bit_mask o)) lt,
  testbit-bit_or k (buf (o / 8)) (bit_mask o),
  testbit-pow k (o % 8),
  testbit_le k (buf (o / 8)),
)
testbit-set_byte buf o k false lt = ground (
  arith,
  mask_lem o,
  testbit_complement 8 k (bit_mask o) lt (omega arith),
  testbit-bit_and k (buf (o / 8)) (255 - bit_mask o),
  testbit-pow k (o % 8),
  testbit_le k (buf (o / 8)),
)

-- Writing a bit sets that bit and no other.
pub getbit-setbit :
    (buf : Mem) (o o' : ℕ) (b : Bool)
    → getbit (setbit buf o b) o' ≡ (if o == o' then b else getbit buf o')
unfolding setbit set_byte
getbit-setbit buf o o' b = elim (ℕ_discrete (o / 8) (o' / 8)) [
  | yes same ↦ ground (
    arith,
    testbit-getbit (setbit buf o b) o',
    testbit-getbit buf o',
    write_self buf (o / 8) (set_byte buf o b),
    testbit-set_byte buf o (o' % 8) b (omega arith),
    same,
  )
  | no other ↦ ground (
    arith,
    testbit-getbit (setbit buf o b) o',
    testbit-getbit buf o',
    write_ne buf (o / 8) (set_byte buf o b) (o' / 8) other,
    other,
  )
]
