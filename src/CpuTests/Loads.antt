-- ===== src/CpuTests/Loads.antt =====
-- div.c, unalign.c, mov-c.c and movsx.c: loops over an array, and loads after stores.
use riscv64_cpu.Base.{zero, suc, ℕ, ◌*◌, ◌+◌, ◌==◌, ◌/◌, ◌^◌, ◌%◌, ◌-◌}
use riscv64_cpu.Base.Bytes.{Mem, write, load_le, store_le}
use riscv64_cpu.Base.Run.{Run, done, ◌>>=◌, ◌>>◌}
use riscv64_cpu.CpuTests.Trap.{check, check_from}
use riscv64_cpu.CpuTests.Numbers.{as_int}

-- `for(i = 0; i < N; i ++) for(j = 1; j < N + 1; j ++) a[i] = op(a[i], j);`
unfoldable pub inner_loop : (ℕ → ℕ → Run ℕ) → ℕ → ℕ → ℕ → Mem → Run Mem
inner_loop op zero i j a = done a
inner_loop op (suc left) i j a = op (a i) j >>= λ v. inner_loop op left i (j + 1) (write a i v)

unfoldable pub outer_loop : (ℕ → ℕ → Run ℕ) → ℕ → ℕ → Mem → Run Mem
unfolding inner_loop
outer_loop op zero i a = done a
outer_loop op (suc left) i a = inner_loop op 10 i 1 a >>= λ b. outer_loop op left (i + 1) b

-- `main` of div.c
unfoldable pub div_main : Run ℕ
unfolding outer_loop check_from
div_main = do
  a ← outer_loop (λ x j. as_int (x * j)) 10 0 (λ i. i)
  b ← outer_loop (λ x j. done (x / j)) 10 0 a
  check_from (λ i. b i == i) 10 0
  done 0

-- The loop of unalign.c, with `buf` in memory.
unfoldable pub unalign_loop : ℕ → Mem → Run ℕ
unalign_loop zero buf = done 0
unalign_loop (suc left) buf =
    let stored = store_le 4 buf 3 0xaabbccdd in
    check (load_le 4 stored 3 == 0xaabbccdd) >> unalign_loop left (write (write stored 1 0) 0 0)

unfoldable pub unalign_main : Run ℕ
unfolding unalign_loop
unalign_main = unalign_loop 4 (λ i. 0)

-- The first assignments of mov-c.c and movsx.c.
abbrev pub moved : Mem
moved =
    let a = write (write (write (write (write (λ i. 0) 0 0) 1 1) 2 2) 3 3) 4 4 in write a 5 (a 3)

-- `main` of mov-c.c; `b` is `A[3]`.
unfoldable pub mov_main : Run ℕ
unfolding check_from
mov_main =
    check_from (λ i. moved i == i) 5 0 >> check (moved 3 == 3) >> check (moved 5 == 3) >> done 0

-- A `signed char` as an `int`.
abbrev pub from_char : ℕ → ℕ
from_char c = ((c + 2 ^ 7) % 2 ^ 8 + 2 ^ 32 - 2 ^ 7) % 2 ^ 32

-- `main` of movsx.c; `c` is `C`.
unfoldable pub movsx_main : Run ℕ
unfolding check_from
movsx_main = do
  let c0 = write (λ i. 0) 0 97
  check (from_char (c0 0) == 97)
  let c1 = write c0 1 (c0 0)
  check (from_char (c1 1) == 97)
  let a1 = write moved 0 (from_char (c1 0))
  check (a1 0 == 97)
  let c2 = write c1 1 0x80
  let a2 = write a1 0 (from_char (c2 1))
  check_from (λ i. a2 (i + 1) == i + 1) 4 0
  check (moved 3 == 3)
  check (a2 5 == 3)
  check (from_char (c2 1) == 0xffffff80)
  check (a2 0 == 0xffffff80)
  done 0
