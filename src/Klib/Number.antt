-- ===== src/Klib/Number.antt =====
-- klib/src/stdio.c and stdlib.c: numbers as text.
pub mod Digits
pub mod Text
pub mod Signed
pub mod Atoi
use riscv64_cpu.Base.{
  zero, suc, [], ◌∷◌, Bool, List, ℕ, false, if◌then◌else◌, ◌+◌, ◌==◌, ◌*◌, ◌-◌, ◌/◌, leb, ltb, ◌%◌,
  ◌&&◌,
}
use riscv64_cpu.Base.Bytes.{Mem, write}
use riscv64_cpu.Base.Run.{Run, done, fault, out_of_fuel, ◌>>=◌, ◌>>◌}
use riscv64_cpu.Klib.Memory.{ℤ, pos, negsuc, assert_non_null, int_max}

-- `while (num != 0) { str[i++] = num % 10 + '0'; num /= 10; }`: the index and the memory.
unfoldable pub digits_loop : ℕ → ℕ → ℕ → ℕ → Mem → Run (ℕ × Mem)
digits_loop zero num i str m = out_of_fuel
digits_loop (suc fuel) num i str m =
    let rest = digits_loop fuel (num / 10) (i + 1) str (write m (str + i) (num % 10 + b'0')) in
    if num == 0 then done (i, m) else rest

-- The loop of `swap_str`; `hi` is `r + 1`.
unfoldable pub swap_loop : ℕ → ℕ → ℕ → ℕ → Mem → Run Mem
swap_loop zero l hi str m = out_of_fuel
swap_loop (suc fuel) l hi str m =
    let r = hi - 1 in
    let rest =
      swap_loop fuel (l + 1) r str
        (write (write m (str + l) (m (str + r))) (str + r) (m (str + l))) in
    if ltb l hi then rest else done m

-- `swap_str(str, l, hi - 1)`
unfoldable pub swap_str : ℕ → ℕ → ℕ → ℕ → Mem → Run Mem
unfolding swap_loop
swap_str fuel str l hi m = assert_non_null str >> swap_loop fuel l hi str m

-- `uint_to_str`
unfoldable pub uint_to_str : ℕ → ℕ → ℕ → Mem → Run Mem
unfolding digits_loop swap_str
uint_to_str fuel str num m =
    if num == 0
    then done (write (write m str b'0') (str + 1) 0)
    else do (i, m1) ← digits_loop fuel num 0 str m; swap_str fuel str 0 i (write m1 (str + i) 0)

-- The stores of a text, one after the other.
unfoldable pub write_text : List ℕ → ℕ → Mem → Mem
write_text [] p m = m
write_text (c ∷ s) p m = write_text s (p + 1) (write m p c)

-- "-2147483648", with its end.
abbrev pub int_min_text : List ℕ
int_min_text = b'-' ∷ b'2' ∷ b'1' ∷ b'4' ∷ b'7' ∷ b'4' ∷ b'8' ∷ b'3' ∷ b'6' ∷ b'4' ∷ b'8' ∷ 0 ∷ []

abbrev pub is_int_min : ℤ → Bool
is_int_min (pos n) = false
is_int_min (negsuc n) = n == int_max

-- `int_to_str` before its loop: `l`, `i`, `num` without its sign, and the memory.
abbrev pub sign : ℕ → ℤ → Mem → ℕ × ℕ × ℕ × Mem
sign str (pos zero) m = (0, 1, 0, write m str b'0')
sign str (pos (suc n)) m = (0, 0, suc n, m)
sign str (negsuc n) m = (1, 1, suc n, write m str b'-')

-- `int_to_str`
unfoldable pub int_to_str : ℕ → ℕ → ℤ → Mem → Run Mem
unfolding digits_loop swap_str write_text
int_to_str fuel str num m =
    assert_non_null str
    >> (if is_int_min num
        then done (write_text int_min_text str m)
        else let (l, i, n, m1) = sign str num m in
          digits_loop fuel n i str m1 >>= λ r. swap_str fuel str l r.0 (write r.1 (str + r.0) 0))

-- `atoi`: the spaces, and the digits. `x * 10 + *nptr` must be an `int` before `'0'` is taken off.
unfoldable pub skip_spaces : ℕ → Mem → ℕ → Run ℕ
skip_spaces zero m p = out_of_fuel
skip_spaces (suc fuel) m p =
    let rest = skip_spaces fuel m (p + 1) in if m p == b' ' then rest else done p

unfoldable pub atoi_loop : ℕ → Mem → ℕ → ℕ → Run ℕ
atoi_loop zero m p x = out_of_fuel
atoi_loop (suc fuel) m p x =
    let c = m p in
    let rest = atoi_loop fuel m (p + 1) (x * 10 + c - b'0') in
    if leb b'0' c && leb c b'9' then if leb (x * 10 + c) int_max then rest else fault else done x

unfoldable pub atoi : ℕ → Mem → ℕ → Run ℕ
unfolding skip_spaces atoi_loop
atoi fuel m nptr = skip_spaces fuel m nptr >>= λ p. atoi_loop fuel m p 0
