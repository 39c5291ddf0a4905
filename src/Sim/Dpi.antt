-- ===== src/Sim/Dpi.antt =====
-- simulator/src/npc/dpi.c: the functions that the simulated core calls for its memory, its
-- console and its `ebreak`. A diagnostic that is only printed is left out.
pub mod Fetch
pub mod Data
pub mod Coherence
use riscv64_cpu.Base.{
  ℕ, ◌+◌, ◌%◌, ◌^◌, List, ◌∷◌, Bool, ◌&&◌, ◌==◌, leb, ltb, bit_and, if◌then◌else◌,
}
use riscv64_cpu.Base.Words.{u32, u64}
use riscv64_cpu.Base.Bytes.{Mem}
use riscv64_cpu.Base.Run.{Run, done, ◌>>=◌}
use riscv64_cpu.Sim.Config.{Config}
use riscv64_cpu.Sim.State.{Host, Phase, set_sim_state}
use riscv64_cpu.Sim.Memory.{pmem_read, pmem_write}

-- The UART's transmit register, and its line status register with the ready bit.
abbrev pub uart_base : ℕ
uart_base = 0x10000000

abbrev pub uart_status : ℕ
uart_status = 0x0000000010000005

-- `dpi_ebreak`, with the address that the source writes out.
unfoldable pub dpi_ebreak : Host → Host
dpi_ebreak h = record h { sim_state = set_sim_state Phase.end_ 0x80000000 0 }

-- `dpi_read_regfile` and `dpi_read_csrfile` keep the address of the core's arrays.
unfoldable pub dpi_read_regfile : ℕ → Host → Host
dpi_read_regfile datap h = record h { reg_ptr = datap }

unfoldable pub dpi_read_csrfile : ℕ → Host → Host
dpi_read_csrfile datap h = record h { csr_ptr = datap }

module _ (c : Config) where
  -- `dpi_instr_mem_read`; `~0x3u` is an `unsigned int`, so the mask has 32 bits.
  unfoldable pub dpi_instr_mem_read : Mem → ℕ → Run ℕ
  dpi_instr_mem_read m addr =
      if leb c.mbase addr && ltb addr (u32 (c.mbase + c.msize))
      then (do w ← pmem_read c m (bit_and addr 0xfffffffc) 4; done (u32 w))
      else done 0

  abbrev pub in_dram : ℕ → Bool
  in_dram addr = leb c.mbase addr && ltb addr (u64 (c.mbase + c.msize))

  unfoldable pub dpi_mem_read : Mem → ℕ → ℕ → Run ℕ
  dpi_mem_read m addr len =
      if addr == uart_status
      then done 0x20
      else if in_dram addr
      then pmem_read c m addr len
      else done 0

  unfoldable pub dpi_mem_write : Host → ℕ → ℕ → ℕ → Run Host
  dpi_mem_write h addr v len =
      if addr == uart_base
      then done (record h { console = bit_and v 0xff ∷ h.console })
      else if in_dram addr
      then (do m ← pmem_write c h.pmem addr len v; done (record h { pmem = m }))
      else done h
