-- ===== src/Base/Arrays.antt =====
-- Arrays of numbers as functions of the index: exchanges, and how often a value occurs.
use riscv64_cpu.Base.Bytes.{Mem, write, write_self, write_ne}
use Prim.Native.Nat.{ℕ, zero, suc, ◌+◌, ◌<◌, ◌≤◌}
use mathlib.Core.Path.{◌≡◌, ap, ◌∙◌, refl}
use mathlib.Core.Logic.{◌≢◌, ◌⊎◌, inl, inr}
use mathlib.Core.Bool.{Bool, true, false}
use native.Mathlib.Omega.{arith}
use native.Mathlib.Decide.{ℕ_discrete, dec_le, dec_lt}
use riscv64_cpu.Base.{Bool-cases}

-- Two entries exchanged: `t = a[i]; a[i] = a[j]; a[j] = t;`
abbrev pub exchange : Mem → ℕ → ℕ → Mem
exchange a i j = write (write a i (a j)) j (a i)

pub exchange_first : (a : Mem) (i j : ℕ) → exchange a i j i ≡ a j
exchange_first a i j = elim (ℕ_discrete i j) [
  | yes e ↦ rw e (write_self (write a j (a j)) j (a j))
  | no ne ↦ write_ne (write a i (a j)) j (a i) i (omega arith) ∙ write_self a i (a j)
]

pub exchange_second : (a : Mem) (i j : ℕ) → exchange a i j j ≡ a i
exchange_second a i j = write_self (write a i (a j)) j (a i)

pub exchange_other : (a : Mem) (i j k : ℕ) → k ≢ i → k ≢ j → exchange a i j k ≡ a k
exchange_other a i j k hi hj =
    write_ne (write a i (a j)) j (a i) k (omega arith) ∙ write_ne a i (a j) k (omega arith)

abbrev pub one : Bool → ℕ
one true = 1
one false = 0

-- How many of the first `n` entries pass the test.
unfoldable pub count : (ℕ → Bool) → Mem → ℕ → ℕ
count p a zero = 0
count p a (suc n) = count p a n + one (p (a n))

pub count_ext :
    (p : ℕ → Bool) (a b : Mem) (n : ℕ) → ((i : ℕ) → i < n → a i ≡ b i) → count p a n ≡ count p b n
unfolding count
count_ext p a b zero h = refl
count_ext p a b (suc n) h =
    omega (
      arith,
      count_ext p a b n (λ i lt. h i (omega arith)),
      ap (λ v. one (p v)) (h n (omega arith)),
    )

-- A write trades the old entry for the new one.
pub count-write :
    (p : ℕ → Bool) (a : Mem) (i v n : ℕ)
    → i < n
    → count p (write a i v) n + one (p (a i)) ≡ count p a n + one (p v)
unfolding count
count-write p a i v zero h = absurd (omega arith)
count-write p a i v (suc n) h = elim (ℕ_discrete i n) [
  | yes e ↦
      let last : write a i v n ≡ v = rw e (write_self a n v) in
      omega (
        arith,
        count_ext p (write a i v) a n (λ k lt. write_ne a i v k (omega arith)),
        ap (λ t. one (p t)) last,
        ap (λ t. one (p (a t))) e,
      )
  | no ne ↦ omega (
    arith,
    count-write p a i v n (omega arith),
    ap (λ t. one (p t)) (write_ne a i v n (omega arith)),
  )
]

pub count-exchange :
    (p : ℕ → Bool) (a : Mem) (i j n : ℕ) → i < n → j < n → count p (exchange a i j) n ≡ count p a n
count-exchange p a i j n hi hj =
    let same : write a i (a j) j ≡ a j = elim (ℕ_discrete i j) [
      | yes e ↦ rw e (write_self a j (a j))
      | no ne ↦ write_ne a i (a j) j (omega arith)
    ] in
    omega (
      arith,
      count-write p a i (a j) n hi,
      count-write p (write a i (a j)) j (a i) n hj,
      ap (λ t. one (p t)) same,
    )

-- An entry after an exchange is one from before, within the same bounds.
pub exchange_source :
    (a : Mem) (i j k lo hi : ℕ)
    → lo ≤ i
    → i < hi
    → lo ≤ j
    → j < hi
    → lo ≤ k
    → k < hi
    → (l : ℕ) × (lo ≤ l) × (l < hi) × (exchange a i j k ≡ a l)
exchange_source a i j k lo hi i1 i2 j1 j2 k1 k2 = elim (ℕ_discrete k i) [
  | yes first ↦ (j, j1, j2, rw first (exchange_first a i j))
  | no ni ↦ elim (ℕ_discrete k j) [
    | yes second ↦ (i, i1, i2, rw second (exchange_second a i j))
    | no nj ↦ (k, k1, k2, exchange_other a i j k ni nj)
  ]
]

pub write_same : (a : Mem) (i k : ℕ) → write a i (a i) k ≡ a k
write_same a i k = elim (ℕ_discrete k i) [
  | yes e ↦ rw e (write_self a i (a i))
  | no ne ↦ write_ne a i (a i) k (omega arith)
]

count_le :
    (p : ℕ → Bool) (a b : Mem) (n : ℕ)
    → ((k : ℕ) → k < n → one (p (a k)) ≤ one (p (b k)))
    → count p a n ≤ count p b n
unfolding count
count_le p a b zero h = omega arith
count_le p a b (suc n) h =
    omega (arith, count_le p a b n (λ k lt. h k (omega arith)), h n (omega arith))

count_lt :
    (p : ℕ → Bool) (a b : Mem) (n l : ℕ)
    → ((k : ℕ) → k < n → one (p (a k)) ≤ one (p (b k)))
    → l < n
    → one (p (a l)) < one (p (b l))
    → count p a n < count p b n
unfolding count
count_lt p a b zero l h lt less = absurd (omega arith)
count_lt p a b (suc n) l h lt less = elim (ℕ_discrete l n) [
  | yes e ↦
      let last : one (p (a n)) < one (p (b n)) = rw e at less in
      omega (arith, count_le p a b n (λ k below. h k (omega arith)), last)
  | no ne ↦ omega (
    arith,
    count_lt p a b n l (λ k below. h k (omega arith)) (omega arith) less,
    h n (omega arith),
  )
]

-- Where two arrays have the same entries, and the same ones outside a range, a test that no entry of
-- the one in the range passes is passed by none of the other.
pub count-none :
    (p : ℕ → Bool) (a b : Mem) (lo hi n : ℕ)
    → hi ≤ n
    → count p b n ≡ count p a n
    → ((k : ℕ) → (k < lo) ⊎ (hi ≤ k) → b k ≡ a k)
    → ((k : ℕ) → lo ≤ k → k < hi → p (a k) ≡ false)
    → (l : ℕ) → lo ≤ l
    → l < hi
    → p (b l) ≡ false
count-none p a b lo hi n in_ counts outside none l l1 l2 = elim (Bool-cases (p (b l))) [
  | inr no_ ↦ no_
  | inl passes ↦
      let le : (k : ℕ) → k < n → one (p (a k)) ≤ one (p (b k)) = λ k lt. elim (dec_le lo k) [
        | no below ↦ omega (arith, ap (λ x. one (p x)) (outside k (inl (omega arith))))
        | yes from ↦ elim (dec_lt k hi) [
          | yes to ↦ omega (arith, ap one (none k from to))
          | no above ↦ omega (arith, ap (λ x. one (p x)) (outside k (inr (omega arith))))
        ]
      ] in
      let lt : one (p (a l)) < one (p (b l)) =
        omega (arith, ap one (none l l1 l2), ap one passes) in
      absurd (omega (arith, counts, count_lt p a b n l le (omega arith) lt))
]
