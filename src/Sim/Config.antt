-- ===== src/Sim/Config.antt =====
-- The build's configuration: the options of simulator/Kconfig that the modelled code reads, as
-- they reach it through the generated autoconf.h, and the macros of include/utils/common.h.
-- CONFIG_DEVICE and CONFIG_DPI_MMIO_DEBUG are not options of Kconfig, so they are undefined.
use riscv64_cpu.Base.{ℕ, ◌+◌, ◌-◌, ◌%◌, ◌^◌, ◌≤◌, ◌<◌, ◌≡◌}

pub record Config : Type 0 where
  pub mbase : ℕ
  pub msize : ℕ
  pub pc_reset_offset : ℕ

-- The defaults of Kconfig.
abbrev pub kconfig : Config
kconfig = record { mbase = 0x80000000; msize = 0x8000000; pc_reset_offset = 0 }

-- What the code relies on: the memory lies between 2 ^ 31 and 2 ^ 32, so that the macros'
-- constants are of type `unsigned int` and their sum does not wrap, and it is made of words.
pub record IsValid (c : Config) : Type 0 where
  pub dram : 2 ^ 31 ≤ c.mbase
  pub fits : c.mbase + c.msize < 2 ^ 32
  pub base_aligned : c.mbase % 8 ≡ 0
  pub size_aligned : c.msize % 8 ≡ 0
  pub nonempty : 0 < c.msize

abbrev pub pmem_left : Config → ℕ
pmem_left c = c.mbase

abbrev pub pmem_right : Config → ℕ
pmem_right c = c.mbase + c.msize - 1

abbrev pub reset_vector : Config → ℕ
reset_vector c = pmem_left c + c.pc_reset_offset
