-- ===== src/Klib/Copy.antt =====
-- klib/src/string.c: the functions that write memory.
pub mod Blocks
pub mod Raw
pub mod Strings
use riscv64_cpu.Base.{ℕ, zero, suc, ◌+◌, ◌-◌, ◌||◌, ◌==◌, ltb, leb, if◌then◌else◌}
use riscv64_cpu.Base.Words.{u8, u32}
use riscv64_cpu.Base.Bytes.{Mem, write}
use riscv64_cpu.Base.Run.{Run, done, fault, out_of_fuel, ◌>>=◌, ◌>>◌}
use riscv64_cpu.Klib.Memory.{strlen, assert_non_null, int_max}

-- `dst[i] = src[i]` at `left` indices from `i` up.
unfoldable pub copy_up : ℕ → ℕ → ℕ → ℕ → Mem → Mem
copy_up zero i dst src m = m
copy_up (suc left) i dst src m = copy_up left (i + 1) dst src (write m (dst + i) (m (src + i)))

-- `dst[i] = src[i]` at the indices below `n`, from the highest down.
unfoldable pub copy_down : ℕ → ℕ → ℕ → Mem → Mem
copy_down zero dst src m = m
copy_down (suc i) dst src m = copy_down i dst src (write m (dst + i) (m (src + i)))

-- `dst[i] = v` at `left` indices from `i` up.
unfoldable pub fill : ℕ → ℕ → ℕ → ℕ → Mem → Mem
fill zero i dst v m = m
fill (suc left) i dst v m = fill left (i + 1) dst v (write m (dst + i) v)

-- `strcpy`: the address that it returns, and the memory.
unfoldable pub strcpy : ℕ → ℕ → ℕ → Mem → Run (ℕ × Mem)
unfolding copy_up
strcpy fuel dst src m = do
  assert_non_null dst
  assert_non_null src
  len ← strlen fuel m src
  done (dst, write (copy_up len 0 dst src m) (dst + len) 0)

-- The loops of `strncpy`, with `left` indices left: copying up to a zero, then padding.
unfoldable pub strncpy_loop : ℕ → ℕ → ℕ → ℕ → Mem → Mem
unfolding fill
strncpy_loop zero i dst src m = m
strncpy_loop (suc left) i dst src m =
    let rest = strncpy_loop left (i + 1) dst src (write m (dst + i) (m (src + i))) in
    if m (src + i) == 0 then fill (suc left) i dst 0 m else rest

unfoldable pub strncpy : ℕ → ℕ → ℕ → Mem → ℕ × Mem
unfolding strncpy_loop
strncpy dst src n m = (dst, strncpy_loop n 0 dst src m)

-- The loop of `strcat`, at `dst + dst_len`; it ends with the terminating zero.
unfoldable pub strcat_loop : ℕ → ℕ → ℕ → ℕ → Mem → Run Mem
strcat_loop zero i end src m = out_of_fuel
strcat_loop (suc fuel) i end src m =
    let rest = strcat_loop fuel (i + 1) end src (write m (end + i) (m (src + i))) in
    if m (src + i) == 0 then done (write m (end + i) 0) else rest

unfoldable pub strcat : ℕ → ℕ → ℕ → Mem → Run (ℕ × Mem)
unfolding strcat_loop
strcat fuel dst src m = do
  dst_len ← strlen fuel m dst
  m' ← strcat_loop fuel 0 (dst + dst_len) src m
  done (dst, m')

-- `memset`; `tmp[i] = c` keeps the low byte of `c`.
unfoldable pub memset : ℕ → ℕ → ℕ → Mem → ℕ × Mem
unfolding fill
memset s c n m = if s == 0 then (s, m) else (s, fill n 0 s (u8 c) m)

-- `memmove`. Its indices are `int`: going up past `INT_MAX` is undefined, and `n - 1` is cut to 32
-- bits for the first index going down. It returns NULL on a NULL argument.
unfoldable pub memmove : ℕ → ℕ → ℕ → Mem → Run (ℕ × Mem)
unfolding copy_up copy_down
memmove dst src n m =
    if (dst == 0) || (src == 0)
    then done (0, m)
    else if n == 0
    then done (dst, m)
    else if ltb dst src
    then if ltb int_max n then fault else done (dst, copy_up n 0 dst src m)
    else let last = u32 (n - 1) in
      if leb last int_max then done (dst, copy_down (last + 1) dst src m) else done (dst, m)

-- `memcpy`
unfoldable pub memcpy : ℕ → ℕ → ℕ → Mem → ℕ × Mem
unfolding copy_up
memcpy out in_ n m = if (out == 0) || (in_ == 0) then (0, m) else (out, copy_up n 0 out in_ m)
