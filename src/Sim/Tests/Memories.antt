-- ===== src/Sim/Tests/Memories.antt =====
-- The memory and the functions of dpi.c at the default configuration.
use riscv64_cpu.Base.{ℕ, ◌+◌, ◌-◌, ◌/◌, ◌*◌, ◌%◌, ◌^◌, ◌≤◌, ◌<◌, ◌≡◌, ◌≢◌, ◌⊎◌, refl, arith, []}
use riscv64_cpu.Base.Bytes.{Mem, IsBytes, load_le, store_le, write}
use riscv64_cpu.Base.Run.{done, fault}
use riscv64_cpu.Sim.Config.{IsValid, kconfig, reset_vector}
use riscv64_cpu.Sim.State.{Host, stop}
use riscv64_cpu.Sim.Memory.Access.{Within, IsWidth, double, word}
use riscv64_cpu.Sim.Memory.{paddr_read, zero_mem, guest_to_host, pmem_read, host_read}
use riscv64_cpu.Sim.Dpi.{dpi_instr_mem_read, dpi_mem_read, dpi_mem_write, uart_status}
use riscv64_cpu.Sim.Dpi.Coherence.{dpi_instr_mem_read-dpi_mem_write}
use riscv64_cpu.Sim.Dpi.Data.{
  dpi_mem_aligned, Straddles, dpi_mem_read-dpi_mem_write, NotInDram, dpi_mem_read_cases,
}
use riscv64_cpu.Sim.Dpi.Fetch.{dpi_instr_mem_read_lem}
use riscv64_cpu.Sim.Memory.Paddr.{RunsPast, Outside, paddr_read_cases}
use riscv64_cpu.Sim.Memory.Dump.{dump_pmem_4kb, words_at, dump_pmem_to_log, dump_pmem_lem}
use riscv64_cpu.Sim.Program.{load_builded_img, Fetches, img, load_builded_img-Fetches}

kconfig-IsValid : IsValid kconfig
kconfig-IsValid = omega arith

zero_mem-IsBytes : IsBytes zero_mem
zero_mem-IsBytes a = omega arith

-- Words at the beginning and at the end of the memory.
first_word : Within kconfig 0x80000000 4
first_word = omega arith

last_double : Within kconfig 0x87fffff8 8
last_double = omega arith

abbrev fresh : Host
fresh = record {
  pmem = zero_mem;
  console = [];
  sim_state = record { state = stop; halt_pc = 0; halt_ret = 0 };
  reg_ptr = 0;
  csr_ptr = 0;
}

-- An `ebreak` written to memory is fetched.
fetch_stored :
    dpi_instr_mem_read kconfig (store_le 4 zero_mem 8 0x00100073) 0x8000000a ≡ done 0x00100073
unfolding dpi_instr_mem_read pmem_read host_read load_le store_le write
fetch_stored = refl

-- The byte just past the memory is taken for one of its own.
paddr_read_at_end : paddr_read kconfig zero_mem 0x88000000 1 ≡ fault
unfolding paddr_read pmem_read host_read
paddr_read_at_end = refl

paddr_read_cases_example :
    (Within kconfig 0x87fffffe 4
      → paddr_read kconfig zero_mem 0x87fffffe 4
        ≡ done (load_le 4 zero_mem (guest_to_host kconfig 0x87fffffe)))
    × (RunsPast kconfig 0x87fffffe 4 → paddr_read kconfig zero_mem 0x87fffffe 4 ≡ fault)
    × (Outside kconfig 0x87fffffe → paddr_read kconfig zero_mem 0x87fffffe 4 ≡ done 0)
paddr_read_cases_example = paddr_read_cases kconfig-IsValid zero_mem word 0x87fffffe

dpi_instr_mem_read_lem_example :
    (0x80000000 ≤ 0x80000006
      → 0x80000006 < 0x80000000 + 0x8000000
      → dpi_instr_mem_read kconfig zero_mem 0x80000006
        ≡ done (load_le 4 zero_mem (0x80000006 / 4 * 4 - 0x80000000)))
    × ((0x80000006 < 0x80000000) ⊎ (0x80000000 + 0x8000000 ≤ 0x80000006)
        → dpi_instr_mem_read kconfig zero_mem 0x80000006 ≡ done 0)
dpi_instr_mem_read_lem_example =
    dpi_instr_mem_read_lem kconfig-IsValid zero_mem zero_mem-IsBytes 0x80000006

dpi_mem_read_cases_example :
    (Within kconfig 0x87fffffc 8
      → dpi_mem_read kconfig zero_mem 0x87fffffc 8
        ≡ done (load_le 8 zero_mem (guest_to_host kconfig 0x87fffffc)))
    × (Straddles kconfig 0x87fffffc 8 → dpi_mem_read kconfig zero_mem 0x87fffffc 8 ≡ fault)
    × (NotInDram kconfig 0x87fffffc
        → 0x87fffffc ≢ uart_status
        → dpi_mem_read kconfig zero_mem 0x87fffffc 8 ≡ done 0)
    × (0x87fffffc ≡ uart_status → dpi_mem_read kconfig zero_mem 0x87fffffc 8 ≡ done 0x20)
dpi_mem_read_cases_example = dpi_mem_read_cases kconfig-IsValid double 0x87fffffc zero_mem

dpi_mem_aligned_example :
    ((r : ℕ) × (dpi_mem_read kconfig zero_mem 0x87fffff8 8 ≡ done r))
    × ((h' : Host) × (dpi_mem_write kconfig fresh 0x87fffff8 7 8 ≡ done h'))
dpi_mem_aligned_example = dpi_mem_aligned kconfig-IsValid double 0x87fffff8 fresh 7 (omega arith)

dpi_mem_read-dpi_mem_write_example :
    (h' : Host) × (dpi_mem_write kconfig fresh 0x80000000 0x1234 4 ≡ done h')
    × (dpi_mem_read kconfig h'.pmem 0x80000000 4 ≡ done (0x1234 % 256 ^ 4))
    × ((b k : ℕ)
        → IsWidth k
        → Within kconfig b k
        → (b + k ≤ 0x80000000) ⊎ (0x80000000 + 4 ≤ b)
        → dpi_mem_read kconfig h'.pmem b k ≡ dpi_mem_read kconfig zero_mem b k)
dpi_mem_read-dpi_mem_write_example =
    dpi_mem_read-dpi_mem_write kconfig-IsValid word fresh 0x1234 first_word

dpi_instr_mem_read-dpi_mem_write_example :
    (h' : Host) × (dpi_mem_write kconfig fresh 0x80000000 0x00100073 4 ≡ done h')
    × (dpi_instr_mem_read kconfig h'.pmem 0x80000002 ≡ done (0x00100073 % 2 ^ 32))
dpi_instr_mem_read-dpi_mem_write_example =
    dpi_instr_mem_read-dpi_mem_write kconfig-IsValid fresh 0x80000000 0x00100073 0x80000002
      zero_mem-IsBytes first_word (omega arith) (omega arith)

-- The built-in program at the reset vector, and the dumps of an empty memory.
load_builded_img-Fetches_example :
    (m' : Mem) × (load_builded_img kconfig zero_mem ≡ done m')
    × Fetches kconfig m' (reset_vector kconfig) img
load_builded_img-Fetches_example =
    load_builded_img-Fetches kconfig-IsValid zero_mem zero_mem-IsBytes refl (omega arith)

dump_pmem_lem_example :
    (4096 ≤ kconfig.msize
      → (dump_pmem_4kb kconfig zero_mem ≡ done (words_at kconfig zero_mem 1024 0))
        × (dump_pmem_to_log kconfig zero_mem ≡ done (words_at kconfig zero_mem 1024 0)))
    × (kconfig.msize < 4096
        → (dump_pmem_4kb kconfig zero_mem ≡ fault) × (dump_pmem_to_log kconfig zero_mem ≡ fault))
dump_pmem_lem_example = dump_pmem_lem kconfig-IsValid zero_mem zero_mem-IsBytes
