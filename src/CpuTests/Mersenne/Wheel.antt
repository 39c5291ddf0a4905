-- ===== src/CpuTests/Mersenne/Wheel.antt =====
-- Trial division by 2, 3 and the numbers 6 k - 1 and 6 k + 1.
use riscv64_cpu.Base.{
  zero, suc, refl, true, false, ℕ, ◌%◌, ◌*◌, ◌≤◌, ◌<◌, ◌≡◌, ◌≢◌, ◌+◌, Bool, arith, ◌↔◌, ap, leb,
  sym, leb-true, ◌∙◌, not_leb, ◌==◌, ==_iff,
}
use native.Mathlib.Nat.{mod-eq_of_lt, mul-le-mul, mul-le-mul_right}
use riscv64_cpu.Base.Run.{done, fault}
use riscv64_cpu.CpuTests.Primes.Trial.{Prime, is_prime_iff}
use riscv64_cpu.CpuTests.Mersenne.{wheel_loop, is_prime_wheel}
use native.Mathlib.Decide.{dec_lt, ℕ_discrete}
use riscv64_cpu.Klib.Memory.{int_max}
use riscv64_cpu.CpuTests.Primes.{is_prime}
use riscv64_cpu.CpuTests.Mersenne.Divisors.{
  NoDivisor, mod_trans, square_lt, root_Prime, next-NoDivisor,
}

module _ (n : ℕ) (odd : n % 2 ≢ 0) (three : n % 3 ≢ 0) where
  -- The loop returns: it stops before `d * d` overflows.
  wheel_loop_iff :
      (fuel d : ℕ)
      → 2 ≤ n
      → n < 46337 * 46337
      → d % 6 ≡ 5
      → d ≤ 46337
      → d ≤ n + 6
      → n + 6 < d + fuel
      → NoDivisor d n
      → (b : Bool) × (wheel_loop fuel d n ≡ done b) × ((b ≡ true) ↔ Prime n)
  unfolding wheel_loop
  wheel_loop_iff zero d two small six dd dn enough h = absurd (omega arith)
  wheel_loop_iff (suc fuel) d two small six dd dn enough h =
      let square : d * d ≤ 46337 * 46337 = mul-le-mul dd dd in
      let fits : leb (d * d) int_max ≡ true = leb-true _ _ (omega arith) in
      let fives : 5 * d ≤ d * d = mul-le-mul_right d (omega arith) in
      elim (dec_lt n (d * d)) [
        | yes last ↦
            let test : leb (d * d) n ≡ false = not_leb _ _ last in
            (true, rw (fits, test) refl, (λ e. root_Prime d n two last h, λ q. refl))
        | no more ↦
            let test : leb (d * d) n ≡ true = leb-true _ _ (omega arith) in
            elim (ℕ_discrete (n % d) 0) [
              | yes z ↦
                  let step : (n % d == 0) ≡ true = ground arith in
                  (
                    false,
                    rw (fits, test, step) refl,
                    (λ e. cc, λ r. absurd (r.none_divides d (omega arith) (omega arith) z)),
                  )
              | no p ↦ elim (ℕ_discrete (n % (d + 2)) 0) [
                | yes z ↦
                    let step : (n % d == 0) ≡ false = ground arith in
                    let step' : (n % (d + 2) == 0) ≡ true = ground arith in
                    (
                      false,
                      rw (fits, test, step, step') refl,
                      (λ e. cc, λ r. absurd (r.none_divides (d + 2) (omega arith) (omega arith) z)),
                    )
                | no q ↦
                    let step : (n % d == 0) ≡ false = ground arith in
                    let step' : (n % (d + 2) == 0) ≡ false = ground arith in
                    let below : d < 46337 = square_lt d 46337 (omega arith) in
                    let (b, run, iff) =
                      wheel_loop_iff fuel (d + 2 + 4) two small (omega arith) (omega arith)
                        (omega arith) (omega arith) (next-NoDivisor n odd three d six h p q) in
                    (b, rw (fits, test, step, step') run, iff)
              ]
            ]
      ]

-- From 46337 * 46337 on the square of 46343 is computed, which overflows.
wheel_loop-overflows :
    (fuel d n : ℕ)
    → Prime n
    → 46337 * 46337 ≤ n
    → d % 6 ≡ 5
    → d ≤ 46343
    → 46343 < d + fuel
    → wheel_loop fuel d n ≡ fault
unfolding wheel_loop
wheel_loop-overflows zero d n pn large six dd enough = absurd (omega arith)
wheel_loop-overflows (suc fuel) d n pn large six dd enough = elim (ℕ_discrete d 46343) [
  | yes last ↦
      let square : d * d ≡ 46343 * 46343 = rw last refl in
      let over : leb (d * d) int_max ≡ false = not_leb _ _ (omega arith) in rw over refl
  | no before ↦
      let below : d ≤ 46337 = omega arith in
      let square : d * d ≤ 46337 * 46337 = mul-le-mul below below in
      let fits : leb (d * d) int_max ≡ true = leb-true _ _ (omega arith) in
      let test : leb (d * d) n ≡ true = leb-true _ _ (omega arith) in
      let first = pn.none_divides d (omega arith) (omega arith) in
      let second = pn.none_divides (d + 2) (omega arith) (omega arith) in
      let step : (n % d == 0) ≡ false = ground arith in
      let step' : (n % (d + 2) == 0) ≡ false = ground arith in
      rw (fits, test, step, step')
        (wheel_loop-overflows fuel (d + 2 + 4) n pn large (omega arith) (omega arith) (omega arith))
]

is_prime_wheel-overflows : (n : ℕ) → 46337 * 46337 ≤ n → Prime n → is_prime_wheel (n + 2) n ≡ fault
unfolding is_prime_wheel
is_prime_wheel-overflows n large pn =
    let odd = pn.none_divides 2 (omega arith) (omega arith) in
    let three = pn.none_divides 3 (omega arith) (omega arith) in
    let test : (n % 2 == 0) ≡ false = ground arith in
    let test' : (n % 3 == 0) ≡ false = ground arith in
    rw (test, test') (wheel_loop-overflows (n + 2) 5 n pn large refl (omega arith) (omega arith))

Bool-ext : (a b : Bool) → ((a ≡ true) ↔ (b ≡ true)) → a ≡ b
Bool-ext true b h = sym (h.0 refl)
Bool-ext false true h = h.1 refl
Bool-ext false false h = refl

-- A number that 2 or 3 divides is prime if it is that number.
multiple_iff : (c n : ℕ) → Prime c → 2 ≤ n → n % c ≡ 0 → ((n == c) ≡ true) ↔ Prime n
multiple_iff c n pc two z = (
  λ e. rw ((==_iff n c).0 e) pc,
  λ q. elim (dec_lt c n) [
    | yes less ↦ absurd (q.none_divides c pc.two less z)
    | no at_most ↦ elim (dec_lt n c) [
      | yes less ↦ absurd (omega (arith, mod-eq_of_lt less))
      | no at_least ↦ ground arith
    ]
  ],
)

two_Prime : Prime 2
two_Prime = record { two = omega arith; none_divides = λ d lo hi. absurd (omega arith) }

three_Prime : Prime 3
three_Prime = record {
  two = omega arith;
  none_divides = λ d lo hi z.
      let e : d ≡ 2 = omega arith in let rest : 3 % 2 ≡ 0 = rw e at z in absurd (omega arith);
}

is_prime_unique : (b : Bool) (n : ℕ) → ((b ≡ true) ↔ Prime n) → b ≡ is_prime n
is_prime_unique b n h =
    Bool-ext b (is_prime n) (λ e. (is_prime_iff n).1 (h.0 e), λ e. h.1 ((is_prime_iff n).0 e))

is_prime_wheel-agrees :
    (n : ℕ) → 2 ≤ n → n < 46337 * 46337 → is_prime_wheel (n + 2) n ≡ done (is_prime n)
unfolding is_prime_wheel
is_prime_wheel-agrees n two small = elim (ℕ_discrete (n % 2) 0) [
  | yes z ↦
      let test : (n % 2 == 0) ≡ true = ground arith in
      rw test (ap done (is_prime_unique (n == 2) n (multiple_iff 2 n two_Prime two z)))
  | no odd ↦
      let test : (n % 2 == 0) ≡ false = ground arith in
      elim (ℕ_discrete (n % 3) 0) [
        | yes z ↦
            let test' : (n % 3 == 0) ≡ true = ground arith in
            rw (test, test')
              (ap done (is_prime_unique (n == 3) n (multiple_iff 3 n three_Prime two z)))
        | no three ↦
            let test' : (n % 3 == 0) ≡ false = ground arith in
            let start : NoDivisor 5 n = λ e lo hi z. elim (ℕ_discrete e 3) [
              | yes third ↦ three (rw third at z)
              | no other ↦ odd (mod_trans n e 2 z (omega arith))
            ] in
            let (b, run, iff) =
              wheel_loop_iff n odd three (n + 2) 5 two small refl (omega arith) (omega arith)
                (omega arith) start in
            rw (test, test') (run ∙ ap done (is_prime_unique b n iff))
      ]
]

-- For `n` from 2 to 46337 * 46337 - 1 `isPrime` returns, without overflow, the truth value that
-- `is_prime` of goldbach.c computes. For every prime from there on it overflows.
is_prime_wheel_lem :
    (n : ℕ)
    → 2 ≤ n
    → (n < 46337 * 46337 → is_prime_wheel (n + 2) n ≡ done (is_prime n))
      × (46337 * 46337 ≤ n → Prime n → is_prime_wheel (n + 2) n ≡ fault)
is_prime_wheel_lem n two = (is_prime_wheel-agrees n two, is_prime_wheel-overflows n)
