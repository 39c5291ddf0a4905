-- ===== src/Klib/Compare.antt =====
-- klib/src/string.c: the functions that compare. Their results are differences of characters.
pub mod Order
use riscv64_cpu.Base.{ℕ, zero, suc, ◌+◌, Bool, ◌||◌, ◌==◌, if◌then◌else◌}
use riscv64_cpu.Base.Bytes.{Mem}
use riscv64_cpu.Base.Run.{Run, done, exit, fault, out_of_fuel, ◌>>=◌, ◌>>◌}
use riscv64_cpu.Klib.Memory.{ℤ, pos, sub_ℕ, assert_non_null, int_max}

-- The loop of `strcmp`, whose index is an `int`, and the difference behind it.
unfoldable pub strcmp_loop : ℕ → Mem → ℕ → ℕ → ℕ → Run ℤ
strcmp_loop zero m s1 s2 i = out_of_fuel
strcmp_loop (suc fuel) m s1 s2 i =
    let rest = strcmp_loop fuel m s1 s2 (i + 1) in
    if m (s1 + i) == m (s2 + i)
    then if m (s1 + i) == 0 then done (pos 0) else if i == int_max then fault else rest
    else done (sub_ℕ (m (s1 + i)) (m (s2 + i)))

unfoldable pub strcmp : ℕ → Mem → ℕ → ℕ → Run ℤ
unfolding strcmp_loop
strcmp fuel m s1 s2 = do assert_non_null s1; assert_non_null s2; strcmp_loop fuel m s1 s2 0

-- The loop of `strncmp`, with `left` characters left of the `n`, and what stands behind it.
unfoldable pub strncmp_loop : ℕ → Mem → ℕ → ℕ → ℕ → Run ℤ
strncmp_loop zero m s1 s2 i = done (pos 0)
strncmp_loop (suc left) m s1 s2 i =
    let rest = strncmp_loop left m s1 s2 (i + 1) in
    if m (s1 + i) == m (s2 + i)
    then if m (s1 + i) == 0 then done (pos 0) else if i == int_max then fault else rest
    else done (sub_ℕ (m (s1 + i)) (m (s2 + i)))

unfoldable pub strncmp : Mem → ℕ → ℕ → ℕ → Run ℤ
unfolding strncmp_loop
strncmp m s1 s2 n = if (s1 == 0) || (s2 == 0) then done (pos 0) else strncmp_loop n m s1 s2 0

-- The loop of `memcmp`, with `left` bytes left.
unfoldable pub memcmp_loop : ℕ → Mem → ℕ → ℕ → ℕ → ℤ
memcmp_loop zero m a b i = pos 0
memcmp_loop (suc left) m a b i =
    let rest = memcmp_loop left m a b (i + 1) in
    if m (a + i) == m (b + i) then rest else sub_ℕ (m (a + i)) (m (b + i))

unfoldable pub memcmp : Mem → ℕ → ℕ → ℕ → ℤ
unfolding memcmp_loop
memcmp m s1 s2 n = memcmp_loop n m s1 s2 0
