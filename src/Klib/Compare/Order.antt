-- ===== src/Klib/Compare/Order.antt =====
-- The comparisons as the order of words.
use riscv64_cpu.Base.{
  ℕ, zero, suc, ◌+◌, ◌^◌, ◌≤◌, ◌<◌, ◌≡◌, ◌≢◌, ◌↔◌, ◌∙◌, refl, sym, ap, arith, List, [], ◌∷◌, length,
  take, ◌==◌, if◌then◌else◌, false, inl, ◌⊎◌, true, inr,
}
use riscv64_cpu.Base.Bytes.{Mem}
use riscv64_cpu.Base.Run.{done, done-injective}
use riscv64_cpu.Klib.Memory.{ℤ, pos, sub_ℕ, Str, int_max}
use riscv64_cpu.Klib.Compare.{strcmp_loop, strcmp, strncmp_loop, strncmp, memcmp_loop, memcmp}
use native.Mathlib.Decide.{ℕ_discrete}

-- The first difference of two words, a word's end counting as the character 0.
unfoldable pub diff : List ℕ → List ℕ → ℤ
diff [] [] = pos 0
diff [] (y ∷ ys) = sub_ℕ 0 y
diff (x ∷ xs) [] = sub_ℕ x 0
diff (x ∷ xs) (y ∷ ys) = if x == y then diff xs ys else sub_ℕ x y

strcmp_loop-diff :
    (fuel i : ℕ) (m : Mem) (p q : ℕ) (s t : List ℕ)
    → Str m (p + i) s
    → Str m (q + i) t
    → length s < fuel
    → i + length s ≤ int_max
    → strcmp_loop fuel m p q i ≡ done (diff s t)
unfolding strcmp_loop diff
strcmp_loop-diff zero i m p q s t hs ht lt small = absurd (omega arith)
strcmp_loop-diff (suc fuel) i m p q [] [] hs ht lt small = ground arith
strcmp_loop-diff (suc fuel) i m p q [] (y ∷ ys) hs ht lt small = ground arith
strcmp_loop-diff (suc fuel) i m p q (x ∷ xs) [] hs ht lt small = ground arith
strcmp_loop-diff (suc fuel) i m p q (x ∷ xs) (y ∷ ys) hs ht lt small =
    let e : p + (i + 1) ≡ p + i + 1 = omega arith in
    let f : q + (i + 1) ≡ q + i + 1 = omega arith in
    let next_s : Str m (p + (i + 1)) xs = rw e hs.2 in
    let next_t : Str m (q + (i + 1)) ys = rw f ht.2 in
    ground
      (arith, strcmp_loop-diff fuel (i + 1) m p q xs ys next_s next_t (omega arith) (omega arith))

-- `strcmp` of two strings, the first not longer than INT_MAX, is their first difference.
pub strcmp_lem :
    (fuel : ℕ) (m : Mem) (p q : ℕ) (s t : List ℕ)
    → p ≢ 0
    → q ≢ 0
    → Str m p s
    → Str m q t
    → length s < fuel
    → length s < 2 ^ 31
    → strcmp fuel m p q ≡ done (diff s t)
unfolding strcmp
strcmp_lem fuel m p q s t hp hq hs ht lt small =
    let e : p + 0 ≡ p = omega arith in
    let f : q + 0 ≡ q = omega arith in
    let a : (p == 0) ≡ false = ground arith in
    let b : (q == 0) ≡ false = ground arith in
    rw (a, b) (strcmp_loop-diff fuel 0 m p q s t (rw e hs) (rw f ht) lt (omega arith))

diff-zero : (m : Mem) (p q : ℕ) (s t : List ℕ) → Str m p s → Str m q t → diff s t ≡ pos 0 → s ≡ t
unfolding diff
diff-zero m p q [] [] hs ht e = refl
diff-zero m p q [] (y ∷ ys) hs ht e = absurd (ground arith)
diff-zero m p q (x ∷ xs) [] hs ht e = absurd (ground arith)
diff-zero m p q (x ∷ xs) (y ∷ ys) hs ht e =
    ground (arith, diff-zero m (p + 1) (q + 1) xs ys hs.2 ht.2)

diff_self : (s : List ℕ) → diff s s ≡ pos 0
unfolding diff
diff_self [] = refl
diff_self (x ∷ xs) = ground (arith, diff_self xs)

-- `strcmp` returns 0 exactly for equal strings.
pub strcmp-zero_iff :
    (fuel : ℕ) (m : Mem) (p q : ℕ) (s t : List ℕ)
    → p ≢ 0
    → q ≢ 0
    → Str m p s
    → Str m q t
    → length s < fuel
    → length s < 2 ^ 31
    → (strcmp fuel m p q ≡ done (pos 0)) ↔ (s ≡ t)
strcmp-zero_iff fuel m p q s t hp hq hs ht lt small =
    let run = strcmp_lem fuel m p q s t hp hq hs ht lt small in
    (
      λ e. diff-zero m p q s t hs ht (done-injective (sym run ∙ e)),
      λ e. run ∙ ap (λ w. done (diff s w)) (sym e) ∙ ap done (diff_self s),
    )

strncmp_loop-diff :
    (left i : ℕ) (m : Mem) (p q : ℕ) (s t : List ℕ)
    → Str m (p + i) s
    → Str m (q + i) t
    → i + length s ≤ int_max
    → strncmp_loop left m p q i ≡ done (diff (take left s) (take left t))
unfolding strncmp_loop diff
strncmp_loop-diff zero i m p q s t hs ht small = refl
strncmp_loop-diff (suc left) i m p q [] [] hs ht small = ground arith
strncmp_loop-diff (suc left) i m p q [] (y ∷ ys) hs ht small = ground arith
strncmp_loop-diff (suc left) i m p q (x ∷ xs) [] hs ht small = ground arith
strncmp_loop-diff (suc left) i m p q (x ∷ xs) (y ∷ ys) hs ht small =
    let e : p + (i + 1) ≡ p + i + 1 = omega arith in
    let f : q + (i + 1) ≡ q + i + 1 = omega arith in
    let next_s : Str m (p + (i + 1)) xs = rw e hs.2 in
    let next_t : Str m (q + (i + 1)) ys = rw f ht.2 in
    ground (arith, strncmp_loop-diff left (i + 1) m p q xs ys next_s next_t (omega arith))

-- `strncmp` of two strings, the first not longer than INT_MAX, is the first difference of their
-- first `n` characters.
pub strncmp_lem :
    (m : Mem) (p q n : ℕ) (s t : List ℕ)
    → p ≢ 0
    → q ≢ 0
    → Str m p s
    → Str m q t
    → length s < 2 ^ 31
    → strncmp m p q n ≡ done (diff (take n s) (take n t))
unfolding strncmp
strncmp_lem m p q n s t hp hq hs ht small =
    let e : p + 0 ≡ p = omega arith in
    let f : q + 0 ≡ q = omega arith in
    let a : (p == 0) ≡ false = ground arith in
    let b : (q == 0) ≡ false = ground arith in
    rw (a, b) (strncmp_loop-diff n 0 m p q s t (rw e hs) (rw f ht) (omega arith))

-- What `memcmp` says of the bytes from `i` to `n`.
abbrev pub FirstDifference : Mem → ℕ → ℕ → ℕ → ℕ → ℤ → Type 0
FirstDifference m a b lo hi r =
    ((r ≡ pos 0) × ((j : ℕ) → lo ≤ j → j < hi → m (a + j) ≡ m (b + j)))
    ⊎ ((k : ℕ) × (lo ≤ k)
        × (k < hi)
        × (m (a + k) ≢ m (b + k))
        × (r ≡ sub_ℕ (m (a + k)) (m (b + k)))
        × ((j : ℕ) → lo ≤ j → j < k → m (a + j) ≡ m (b + j)))

equal_from :
    (i hi : ℕ) (m : Mem) (a b : ℕ)
    → m (a + i) ≡ m (b + i)
    → ((j : ℕ) → i + 1 ≤ j → j < hi → m (a + j) ≡ m (b + j))
    → (j : ℕ) → i ≤ j
    → j < hi
    → m (a + j) ≡ m (b + j)
equal_from i hi m a b same rest j lo lt = elim (ℕ_discrete i j) [
  | yes here ↦ rw (← here) same
  | no ne ↦ rest j (omega arith) lt
]

-- An equal byte in front.
widen :
    (i hi : ℕ) (m : Mem) (a b : ℕ) (r : ℤ)
    → m (a + i) ≡ m (b + i)
    → FirstDifference m a b (i + 1) hi r
    → FirstDifference m a b i hi r
widen i hi m a b r same (inl (e, h)) = inl (e, equal_from i hi m a b same h)
widen i hi m a b r same (inr (k, lo, lt, ne, e, h)) =
    inr (k, omega arith, lt, ne, e, equal_from i k m a b same h)

memcmp_loop-FirstDifference :
    (left i hi : ℕ) (m : Mem) (a b : ℕ)
    → i + left ≡ hi
    → FirstDifference m a b i hi (memcmp_loop left m a b i)
unfolding memcmp_loop
memcmp_loop-FirstDifference zero i hi m a b e = inl (refl, λ j lo lt. absurd (omega arith))
memcmp_loop-FirstDifference (suc left) i hi m a b e = elim (ℕ_discrete (m (a + i)) (m (b + i))) [
  | yes same ↦
      let test : (m (a + i) == m (b + i)) ≡ true = ground arith in
      rw test (
        widen i hi m a b (memcmp_loop left m a b (i + 1)) same
          (memcmp_loop-FirstDifference left (i + 1) hi m a b (omega arith)))
  | no ne ↦
      let test : (m (a + i) == m (b + i)) ≡ false = ground arith in
      rw test (inr (i, omega arith, omega arith, ne, refl, λ j lo lt. absurd (omega arith)))
]

-- `memcmp` returns 0 if the `n` bytes agree, else the difference of the first that do not.
pub memcmp-FirstDifference : (m : Mem) (a b n : ℕ) → FirstDifference m a b 0 n (memcmp m a b n)
unfolding memcmp
memcmp-FirstDifference m a b n = memcmp_loop-FirstDifference n 0 n m a b (omega arith)
