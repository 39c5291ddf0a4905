-- ===== src/Sim/Memory.antt =====
-- simulator/src/memory/memory.c: the guest's physical memory, kept in the array `pmem`.
-- A host pointer into `pmem` is its offset; an access that leaves the array is a fault, and
-- `assert(0)` an abort. The host is little-endian, as its cast pointers require.
pub mod Access
pub mod Paddr
pub mod Dump
use riscv64_cpu.Base.{ℕ, ◌+◌, ◌-◌, ◌%◌, ◌^◌, Bool, ◌&&◌, ◌==◌, leb, if◌then◌else◌}
use riscv64_cpu.Base.Words.{u32, sub64}
use riscv64_cpu.Base.Bytes.{Mem, load_le, store_le}
use riscv64_cpu.Base.Run.{Run, done, abort, fault, ◌>>=◌}
use riscv64_cpu.Sim.Config.{Config}

-- `pmem[CONFIG_MSIZE]` before anything is loaded.
abbrev pub zero_mem : Mem
zero_mem a = 0

module _ (c : Config) where
  -- `guest_to_host`: the offset of `pmem + paddr - CONFIG_MBASE`.
  abbrev pub guest_to_host : ℕ → ℕ
  guest_to_host paddr = sub64 paddr c.mbase

  -- `*(uintN_t *)addr`, for `n` bytes.
  unfoldable pub deref : Mem → ℕ → ℕ → Run ℕ
  deref m n addr = if leb (addr + n) c.msize then done (load_le n m addr) else fault

  unfoldable pub assign : Mem → ℕ → ℕ → ℕ → Run Mem
  assign m n addr v = if leb (addr + n) c.msize then done (store_le n m addr v) else fault

  unfoldable pub host_read : Mem → ℕ → ℕ → Run ℕ
  unfolding deref
  host_read m addr len =
      if len == 1
      then deref m 1 addr
      else if len == 2
      then deref m 2 addr
      else if len == 4
      then deref m 4 addr
      else if len == 8
      then deref m 8 addr
      else abort

  unfoldable pub host_write : Mem → ℕ → ℕ → ℕ → Run Mem
  unfolding assign
  host_write m addr len v =
      if len == 1
      then assign m 1 addr v
      else if len == 2
      then assign m 2 addr v
      else if len == 4
      then assign m 4 addr v
      else if len == 8
      then assign m 8 addr v
      else abort

  unfoldable pub pmem_read : Mem → ℕ → ℕ → Run ℕ
  pmem_read m addr len = host_read m (guest_to_host addr) len

  unfoldable pub pmem_write : Mem → ℕ → ℕ → ℕ → Run Mem
  pmem_write m addr len v = host_write m (guest_to_host addr) len v

  -- `in_pmem`, with `<=` at the upper end as the source has it.
  abbrev pub in_pmem : ℕ → Bool
  in_pmem addr = leb c.mbase addr && leb addr (u32 (c.mbase + c.msize))

  -- Without CONFIG_DEVICE an address outside reads as 0 and a write there is dropped;
  -- `out_of_bound` is empty.
  unfoldable pub paddr_read : Mem → ℕ → ℕ → Run ℕ
  paddr_read m addr len = if in_pmem addr then pmem_read m addr len else done 0

  unfoldable pub paddr_write : Mem → ℕ → ℕ → ℕ → Run Mem
  paddr_write m addr len v = if in_pmem addr then pmem_write m addr len v else done m
