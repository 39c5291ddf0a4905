-- ===== src/Am/X86/Spaces/Fresh.antt =====
-- protect: it ends with the tables that map relies on.
use riscv64_cpu.Am.X86.Paging.{pgsize, uvm_area}
use riscv64_cpu.Am.X86.Spaces.{AddrSpace}

abbrev user_space : AddrSpace
user_space = record { pgsize = pgsize; area = uvm_area }
