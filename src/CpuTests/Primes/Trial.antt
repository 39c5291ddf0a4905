-- ===== src/CpuTests/Primes/Trial.antt =====
-- Trial division decides primality, and `goldbach` the sum of two primes.
use riscv64_cpu.Base.{
  zero, suc, refl, true, false, inl, inr, ℕ, ◌-◌, ◌≡◌, ◌≤◌, ◌<◌, ◌↔◌, ◌%◌, ◌+◌, Bool-cases, ltb,
  ◌≢◌, arith, ◌==◌, Bool, ◌&&◌,
}
use riscv64_cpu.CpuTests.Primes.{is_prime_loop, is_prime, goldbach_loop, goldbach}
use native.Mathlib.Decide.{dec_lt, ℕ_discrete}
use native.Mathlib.Nat.{le_refl}

pub record Prime (n : ℕ) : Type 0 where
  pub two : 2 ≤ n
  pub none_divides : (d : ℕ) → 2 ≤ d → d < n → n % d ≢ 0

is_prime_loop_iff :
    (left i n : ℕ) → (is_prime_loop left i n ≡ true) ↔ ((d : ℕ) → i ≤ d → d < i + left → n % d ≢ 0)
unfolding is_prime_loop
is_prime_loop_iff zero i n = (λ e d lo hi. absurd (omega arith), λ h. refl)
is_prime_loop_iff (suc left) i n = elim (ℕ_discrete (n % i) 0) [
  | yes divides ↦
      let test : (n % i == 0) ≡ true = ground arith in
      rw test (λ e. cc, λ h. absurd (h i (le_refl i) (omega arith) divides))
  | no ne ↦
      let test : (n % i == 0) ≡ false = ground arith in
      let ih = is_prime_loop_iff left (i + 1) n in
      rw test (
        λ e d lo hi. elim (ℕ_discrete d i) [
          | yes here ↦ rw here ne
          | no further ↦ ih.0 e d (omega arith) (omega arith)
        ],
        λ h. ih.1 (λ d lo hi. h d (omega arith) (omega arith)),
      )
]

-- `is_prime` is true exactly for the primes.
pub is_prime_iff : (n : ℕ) → (is_prime n ≡ true) ↔ Prime n
unfolding is_prime
is_prime_iff n = elim (dec_lt n 2) [
  | yes small ↦
      let test : ltb n 2 ≡ true = ground arith in
      rw test (λ e. cc, λ h. absurd (omega (arith, h.two)))
  | no large ↦
      let test : ltb n 2 ≡ false = ground arith in
      let loop = is_prime_loop_iff (n - 2) 2 n in
      rw test (
        λ e. record { two = omega arith; none_divides = λ d lo hi. loop.0 e d lo (omega arith) },
        λ h. loop.1 (λ d lo hi. h.none_divides d lo (omega arith)),
      )
]

-- Such a number below `hi`, from `lo` on.
abbrev SplitFrom : ℕ → ℕ → ℕ → Type 0
SplitFrom n lo hi = (i : ℕ) × (lo ≤ i) × (i < hi) × Prime i × Prime (n - i)

both_true : (a b : Bool) → (a && b) ≡ true → (a ≡ true) × (b ≡ true)
both_true true true h = (refl, refl)
both_true true false h = cc
both_true false b h = cc

-- The test of a round.
abbrev splits_at : ℕ → ℕ → Bool
splits_at n i = is_prime i && is_prime (n - i)

splits_at_iff : (n i : ℕ) → (splits_at n i ≡ true) ↔ (Prime i × Prime (n - i))
splits_at_iff n i = (
  λ h.
      let (p, q) = both_true (is_prime i) (is_prime (n - i)) h in
      ((is_prime_iff i).0 p, (is_prime_iff (n - i)).0 q),
  λ h. rw ((is_prime_iff i).1 h.0, (is_prime_iff (n - i)).1 h.1) refl,
)

after : (i k n : ℕ) → i ≤ k → splits_at n i ≡ false → Prime k × Prime (n - k) → i + 1 ≤ k
after i k n lo no_ h = elim (ℕ_discrete k i) [
  | no ne ↦ omega arith
  | yes e ↦ let t : splits_at n i ≡ true = rw e at ((splits_at_iff n k).1 h) in cc (no_, t)
]

goldbach_loop_iff : (left i n : ℕ) → (goldbach_loop left i n ≡ true) ↔ SplitFrom n i (i + left)
unfolding goldbach_loop
goldbach_loop_iff zero i n = (λ e. cc, λ h. absurd (omega (arith, h.1, h.2)))
goldbach_loop_iff (suc left) i n =
    let ih = goldbach_loop_iff left (i + 1) n in
    elim (Bool-cases (splits_at n i)) [
      | inl here ↦ rw here (
        λ e. let (p, q) = (splits_at_iff n i).0 here in (i, le_refl i, omega arith, p, q),
        λ h. refl,
      )
      | inr not_here ↦ rw not_here (
        λ e. let (k, lo, hi, p, q) = ih.0 e in (k, omega arith, omega arith, p, q),
        λ h.
            let (k, lo, hi, p, q) = h in
            ih.1 (k, after i k n lo not_here (p, q), omega arith, p, q),
      )
    ]

-- `goldbach` is true exactly for the sums of two primes.
pub goldbach_iff : (n : ℕ) → (goldbach n ≡ true) ↔ ((i : ℕ) × Prime i × Prime (n - i))
unfolding goldbach
goldbach_iff n =
    let loop = goldbach_loop_iff (n - 2) 2 n in
    (
      λ e. let (i, lo, hi, p, q) = loop.0 e in (i, p, q),
      λ h. let (i, p, q) = h in loop.1 (i, p.two, omega (arith, p.two, q.two), p, q),
    )
