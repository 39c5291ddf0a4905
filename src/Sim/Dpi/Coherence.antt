-- ===== src/Sim/Dpi/Coherence.antt =====
-- Stores and instruction fetch.
use riscv64_cpu.Base.{ℕ, ◌-◌, ◌*◌, ◌/◌, ◌%◌, ◌^◌, ◌≡◌, ◌∙◌, ap, arith}
use riscv64_cpu.Base.Bytes.{IsBytes, load_le, store_le, load_le-store_le, store_le-IsBytes}
use riscv64_cpu.Base.Run.{done}
use riscv64_cpu.Sim.Config.{Config, IsValid}
use riscv64_cpu.Sim.State.{Host}
use riscv64_cpu.Sim.Memory.{guest_to_host}
use riscv64_cpu.Sim.Memory.Access.{word, Within}
use riscv64_cpu.Sim.Dpi.{dpi_instr_mem_read, dpi_mem_write}
use riscv64_cpu.Sim.Dpi.Fetch.{dpi_instr_mem_read_lem}
use riscv64_cpu.Sim.Dpi.Data.{dpi_mem_write_cases}

-- A word that the core stores at an aligned address is the instruction that it fetches from any
-- address in that word.
pub dpi_instr_mem_read-dpi_mem_write :
    {c : Config} (valid : IsValid c) (h : Host) (addr v pc : ℕ)
    → IsBytes h.pmem
    → Within c addr 4
    → addr % 4 ≡ 0
    → pc / 4 ≡ addr / 4
    → (h' : Host) × (dpi_mem_write c h addr v 4 ≡ done h')
      × (dpi_instr_mem_read c h'.pmem pc ≡ done (v % 2 ^ 32))
dpi_instr_mem_read-dpi_mem_write {c} valid h addr v pc bytes w aligned same =
    let m = store_le 4 h.pmem (guest_to_host c addr) v in
    (
      record h { pmem = m },
      (dpi_mem_write_cases valid word addr h v).1 w,
      (dpi_instr_mem_read_lem valid m (store_le-IsBytes 4 h.pmem (guest_to_host c addr) v bytes)
              pc).0
            (omega (arith, w.from_base))
            (omega (arith, w.to_end, valid.base_aligned, valid.size_aligned))
          ∙ ap (λ a. done (load_le 4 m a)) offset
          ∙ ap done (load_le-store_le 4 h.pmem (guest_to_host c addr) v),
    )
  where
    offset : pc / 4 * 4 - c.mbase ≡ guest_to_host c addr
    offset = omega (arith, w.from_base, w.to_end, valid.fits)
