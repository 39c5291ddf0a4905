-- ===== src/Sim/Dpi/Fetch.antt =====
-- Instruction fetch.
use riscv64_cpu.Base.{ℕ, ◌+◌, ◌-◌, ◌/◌, ◌*◌, ◌^◌, ◌≤◌, ◌<◌, ◌≡◌, ◌⊎◌, arith, bit_and}
use riscv64_cpu.Base.Bits.{bit_and_digit, bit_and_mask}
use riscv64_cpu.Base.Bytes.{Mem, IsBytes, load_le, load_le-lt}
use riscv64_cpu.Base.Run.{done}
use riscv64_cpu.Sim.Config.{Config, IsValid}
use riscv64_cpu.Sim.Memory.Access.{word, Within, pmem_read_done}
use riscv64_cpu.Sim.Dpi.{dpi_instr_mem_read}

-- `addr & ~0x3u` is the word's address.
word_mask : (a : ℕ) → a < 2 ^ 32 → bit_and a 0xfffffffc ≡ a / 4 * 4
word_mask a h = omega (
  arith,
  bit_and_digit a 0xfffffffc,
  bit_and_digit (a / 2) 0x7ffffffe,
  bit_and_mask 30 (a / 2 / 2),
)

module _ {c : Config} (valid : IsValid c) (m : Mem) (bytes : IsBytes m) (addr : ℕ) where
  word_Within : c.mbase ≤ addr → addr < c.mbase + c.msize → Within c (addr / 4 * 4) 4
  word_Within lo hi = omega (arith, valid.base_aligned, valid.size_aligned)

  fetch_inside :
      c.mbase ≤ addr
      → addr < c.mbase + c.msize
      → dpi_instr_mem_read c m addr ≡ done (load_le 4 m (addr / 4 * 4 - c.mbase))
  unfolding dpi_instr_mem_read
  fetch_inside lo hi = ground (
    arith,
    valid.fits,
    word_mask addr,
    pmem_read_done valid m word (word_Within lo hi),
    load_le-lt 4 m (addr / 4 * 4 - c.mbase) bytes,
  )

  fetch_outside :
      (addr < c.mbase) ⊎ (c.mbase + c.msize ≤ addr) → dpi_instr_mem_read c m addr ≡ done 0
  unfolding dpi_instr_mem_read
  fetch_outside out = ground (arith, valid.fits)

  -- Fetching never fails: in the memory it gives the word that holds the address, elsewhere 0.
  pub dpi_instr_mem_read_lem :
      (c.mbase ≤ addr
        → addr < c.mbase + c.msize
        → dpi_instr_mem_read c m addr ≡ done (load_le 4 m (addr / 4 * 4 - c.mbase)))
      × ((addr < c.mbase) ⊎ (c.mbase + c.msize ≤ addr) → dpi_instr_mem_read c m addr ≡ done 0)
  dpi_instr_mem_read_lem = (fetch_inside, fetch_outside)
