-- ===== src/Klib/Memory.antt =====
-- What klib's functions work on: byte memory, C strings in it, and `int`.
-- A pointer is an address, 0 is NULL, and `char` is unsigned, as on RISC-V. A failed `assert`
-- calls `halt(1)`.
use riscv64_cpu.Base.{
  ℕ, zero, suc, ◌+◌, ◌-◌, ◌^◌, ◌<◌, ◌≤◌, ◌≡◌, ◌≢◌, List, [], ◌∷◌, length, leb, ◌==◌, if◌then◌else◌,
  arith, sym, ◌∙◌,
}
use riscv64_cpu.Base.Bytes.{Mem}
use riscv64_cpu.Base.Run.{Run, done, exit, out_of_fuel}
use native.Mathlib.Nat.{add-zero}

-- The memory holds the characters `s` from `p` on, and then a zero.
abbrev pub Str : Mem → ℕ → List ℕ → Type 0
Str m p [] = m p ≡ 0
Str m p (x ∷ xs) = (m p ≡ x) × (x ≢ 0) × Str m (p + 1) xs

-- An `int` of a value that may be negative; `negsuc n` is -(n + 1).
pub data ℤ : Type 0 where
  pos : ℕ → ℤ
  negsuc : ℕ → ℤ

-- The `int` difference of two characters.
abbrev pub sub_ℕ : ℕ → ℕ → ℤ
sub_ℕ a b = if leb b a then pos (a - b) else negsuc (b - a - 1)

-- `INT_MAX`; `++i` of an `int` there is undefined.
abbrev pub int_max : ℕ
int_max = 2 ^ 31 - 1

-- `assert (p != NULL)`
abbrev pub assert_non_null : ℕ → Run (Unit {0})
assert_non_null p = if p == 0 then exit 1 else done tt

-- The loop of `strlen`, from the index `i` on.
unfoldable pub strlen_loop : ℕ → Mem → ℕ → ℕ → Run ℕ
strlen_loop zero m s i = out_of_fuel
strlen_loop (suc fuel) m s i =
    let rest = strlen_loop fuel m s (i + 1) in if m (s + i) == 0 then done i else rest

-- `strlen`
unfoldable pub strlen : ℕ → Mem → ℕ → Run ℕ
unfolding strlen_loop
strlen fuel m s = strlen_loop fuel m s 0

-- Strings are the same where the memories are.
pub Str-same :
    (m k : Mem) (p : ℕ) (s : List ℕ)
    → ((b : ℕ) → p ≤ b → b ≤ p + length s → k b ≡ m b)
    → Str m p s
    → Str k p s
Str-same m k p [] same h = omega (arith, same p (omega arith) (omega arith))
Str-same m k p (x ∷ xs) same h = (
  omega (arith, same p (omega arith) (omega arith)),
  h.1,
  Str-same m k (p + 1) xs (λ b lo hi. same b (omega arith) (omega arith)) h.2,
)

-- The characters of a string, and its end, by index.
pub Str-end : (m : Mem) (p : ℕ) (s : List ℕ) → Str m p s → m (p + length s) ≡ 0
Str-end m p [] h = rw add-zero h
Str-end m p (x ∷ xs) h =
    let e : p + suc (length xs) ≡ p + 1 + length xs = omega arith in rw e (Str-end m (p + 1) xs h.2)

pub Str-char : (m : Mem) (p : ℕ) (s : List ℕ) (j : ℕ) → Str m p s → j < length s → m (p + j) ≢ 0
Str-char m p [] j h lt = absurd (omega arith)
Str-char m p (x ∷ xs) zero h lt = let e : p + 0 ≡ p = omega arith in rw e (λ z. h.1 (sym h.0 ∙ z))
Str-char m p (x ∷ xs) (suc j) h lt =
    let e : p + suc j ≡ p + 1 + j = omega arith in rw e (Str-char m (p + 1) xs j h.2 (omega arith))

strlen_loop-length :
    (fuel i : ℕ) (m : Mem) (p : ℕ) (s : List ℕ)
    → Str m (p + i) s
    → length s < fuel
    → strlen_loop fuel m p i ≡ done (i + length s)
unfolding strlen_loop
strlen_loop-length zero i m p s h lt = absurd (omega arith)
strlen_loop-length (suc fuel) i m p [] h lt = ground arith
strlen_loop-length (suc fuel) i m p (x ∷ xs) h lt =
    let e : p + (i + 1) ≡ p + i + 1 = omega arith in
    let next : Str m (p + (i + 1)) xs = rw e h.2 in
    ground (arith, strlen_loop-length fuel (i + 1) m p xs next (omega arith))

-- With fuel for one more test than the string has characters, `strlen` returns their number.
pub strlen_lem :
    (fuel : ℕ) (m : Mem) (p : ℕ) (s : List ℕ)
    → Str m p s
    → length s < fuel
    → strlen fuel m p ≡ done (length s)
unfolding strlen
strlen_lem fuel m p s h lt =
    let e : p + 0 ≡ p = omega arith in
    let h' : Str m (p + 0) s = rw e h in ground (arith, strlen_loop-length fuel 0 m p s h' lt)
