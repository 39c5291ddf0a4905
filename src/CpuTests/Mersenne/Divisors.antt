-- ===== src/CpuTests/Mersenne/Divisors.antt =====
-- Divisors of a number, and what the numbers 6 k - 1 and 6 k + 1 leave to test.
use riscv64_cpu.Base.{ℕ, ◌%◌, ◌*◌, ◌≤◌, ◌<◌, ◌≡◌, ◌≢◌, ◌+◌, ◌/◌, arith, ap, sym, ◌∙◌}
use native.Mathlib.Nat.{
  mod-eq-zero_of_dvd, mul-le-mul, div-add-mod, dvd_trans, dvd_of_mod-eq-zero, mul-mod_left,
  mul-le-mul_left,
}
use riscv64_cpu.CpuTests.Primes.Trial.{Prime}
use native.Mathlib.Decide.{dec_lt, ℕ_discrete}

abbrev pub NoDivisor : ℕ → ℕ → Type 0
NoDivisor d n = (e : ℕ) → 2 ≤ e → e < d → n % e ≢ 0

-- A divisor of a divisor.
pub mod_trans : (n e c : ℕ) → n % e ≡ 0 → e % c ≡ 0 → n % c ≡ 0
mod_trans n e c p q =
    mod-eq-zero_of_dvd c (dvd_trans c (dvd_of_mod-eq-zero c q) (dvd_of_mod-eq-zero e p))

pub square_lt : (a b : ℕ) → a * a < b * b → a < b
square_lt a b lt = elim (dec_lt a b) [
  | yes below ↦ below
  | no above ↦
      let squares : b * b ≤ a * a = mul-le-mul (omega arith) (omega arith) in absurd (omega arith)
]

-- A number with no divisor up to its square root is prime.
pub root_Prime : (d n : ℕ) → 2 ≤ n → n < d * d → NoDivisor d n → Prime n
root_Prime d n two lt h = record {
  two = two;
  none_divides = λ e lo hi z.
      let f = n / e in
      let whole : e * f ≡ n = omega (arith, div-add-mod n e) in
      let divides : n % f ≡ 0 = ap (λ (t : ℕ). t % f) (sym whole) ∙ mul-mod_left e f in
      elim (dec_lt e d) [
        | yes below ↦ h e lo below z
        | no above ↦ elim (dec_lt f d) [
          | no above' ↦
              let squares : d * d ≤ e * f = mul-le-mul (omega arith) (omega arith) in
              absurd (omega arith)
          | yes below ↦ elim (dec_lt f 2) [
            | yes least ↦
                let most : e * f ≤ e * 1 = mul-le-mul_left e (omega arith) in absurd (omega arith)
            | no more ↦ h f (omega arith) below divides
          ]
        ]
      ];
}

module _ (n : ℕ) (odd : n % 2 ≢ 0) (three : n % 3 ≢ 0) where
  -- Of six numbers in a row only two need a test.
  pub next-NoDivisor :
      (d : ℕ) → d % 6 ≡ 5 → NoDivisor d n → n % d ≢ 0 → n % (d + 2) ≢ 0 → NoDivisor (d + 2 + 4) n
  next-NoDivisor d six h p q e lo hi z = elim (dec_lt e d) [
    | yes below ↦ h e lo below z
    | no above ↦ elim (ℕ_discrete (e % 2) 0) [
      | yes even ↦ odd (mod_trans n e 2 z even)
      | no uneven ↦ elim (ℕ_discrete (e % 3) 0) [
        | yes third ↦ three (mod_trans n e 3 z third)
        | no other ↦ elim (ℕ_discrete e d) [
          | yes first ↦ p (rw first at z)
          | no later ↦ let second : e ≡ d + 2 = omega arith in q (rw second at z)
        ]
      ]
    ]
  ]
