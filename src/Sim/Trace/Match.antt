-- ===== src/Sim/Trace/Match.antt =====
-- What a pattern matches.
use native.Mathlib.Nat.{pow-succ', pow-le-pow_right}
use riscv64_cpu.Base.{
  ℕ, ◌+◌, ◌*◌, ◌/◌, ◌%◌, ◌^◌, ◌≤◌, ◌<◌, ◌≡◌, refl, arith, List, [], ◌∷◌, length, Bool, true, ◌&&◌,
  ◌==◌, bit_and, if◌then◌else◌, Bool-cases, inl, inr,
}
use riscv64_cpu.Base.Bits.{bit_and_digit, bit_and-zero, bit_or_one}
use riscv64_cpu.Sim.Trace.Pattern.{
  is_separator, shift_key, shift_mask, parse_loop, parse_pattern, inst_pat,
}

-- The pattern's symbols without the separators, the one for the lowest bit first.
unfoldable pub symbols : List ℕ → List ℕ → List ℕ
symbols [] seen = seen
symbols (c ∷ p) seen = symbols p (if is_separator c then seen else c ∷ seen)

-- What a symbol asks of a bit.
abbrev pub allows : ℕ → ℕ → Bool
allows c bit = if c == b'1' then bit == 1 else if c == b'0' then bit == 0 else true

-- Each bit that the symbols name is as they ask.
unfoldable pub agrees : List ℕ → ℕ → Bool
agrees [] i = true
agrees (c ∷ s) i = allows c (i % 2) && agrees s (i / 2)

abbrev key_bit : ℕ → ℕ
key_bit c = if c == b'1' then 1 else 0

abbrev mask_bit : ℕ → ℕ
mask_bit c = if c == b'1' then 1 else if c == b'0' then 1 else 0

key_of : List ℕ → ℕ
key_of [] = 0
key_of (c ∷ s) = 2 * key_of s + key_bit c

mask_of : List ℕ → ℕ
mask_of [] = 0
mask_of (c ∷ s) = 2 * mask_of s + mask_bit c

of_lt : (s : List ℕ) → (key_of s < 2 ^ length s) × (mask_of s < 2 ^ length s)
unfolding key_of mask_of
of_lt [] = omega arith
of_lt (c ∷ s) = ground (arith, of_lt s, pow-succ' 2 (length s))

small : (s : List ℕ) → length s < 32 → (key_of s < 2 ^ 31) × (mask_of s < 2 ^ 31)
small s h =
    omega
      (arith, of_lt s, pow-le-pow_right {n = 2} (omega arith) {i = length s} {j = 31} (omega arith))

shift_key-of : (c : ℕ) (s : List ℕ) → length s < 32 → shift_key c (key_of s) ≡ key_of (c ∷ s)
unfolding shift_key key_of
shift_key-of c s h = ground (arith, small s h, bit_or_one (key_of s))

shift_mask-of : (c : ℕ) (s : List ℕ) → length s < 32 → shift_mask c (mask_of s) ≡ mask_of (c ∷ s)
unfolding shift_mask mask_of
shift_mask-of c s h = ground (arith, small s h, bit_or_one (mask_of s))

length-symbols : (p seen : List ℕ) → length seen ≤ length (symbols p seen)
unfolding symbols
length-symbols [] seen = omega arith
length-symbols (c ∷ p) seen = ground (arith, length-symbols p seen, length-symbols p (c ∷ seen))

parse_loop-of :
    (p seen : List ℕ)
    → length (symbols p seen) ≤ 32
    → parse_loop p (key_of seen) (mask_of seen)
      ≡ (key_of (symbols p seen), mask_of (symbols p seen))
unfolding parse_loop symbols
parse_loop-of [] seen h = refl
parse_loop-of (c ∷ p) seen h = elim (Bool-cases (is_separator c)) [
  | inl skip ↦ rw skip (parse_loop-of p seen (rw skip at h))
  | inr take ↦
      let h' : length (symbols p (c ∷ seen)) ≤ 32 = rw take at h in
      let short : length seen < 32 = omega (arith, length-symbols p (c ∷ seen)) in
      rw (take, shift_key-of c seen short, shift_mask-of c seen short)
        (parse_loop-of p (c ∷ seen) h')
]

agrees-of : (s : List ℕ) (i : ℕ) → (bit_and i (mask_of s) == key_of s) ≡ agrees s i
unfolding agrees key_of mask_of
agrees-of [] i = ground (arith, bit_and-zero i)
agrees-of (c ∷ s) i =
    ground (arith, agrees-of s (i / 2), bit_and_digit i (2 * mask_of s + mask_bit c))

-- With at most 32 symbols, a pattern matches exactly the instructions whose low bits are as its
-- symbols ask, one bit to a symbol, the last symbol the lowest bit.
pub inst_pat_lem :
    (p : List ℕ) (instr : ℕ)
    → length (symbols p []) ≤ 32
    → inst_pat p instr ≡ agrees (symbols p []) instr
unfolding inst_pat parse_pattern key_of mask_of
inst_pat_lem p instr h = rw (parse_loop-of p [] h) (agrees-of (symbols p []) instr)
