-- ===== src/Lib.antt =====
-- Verification of riscv64-cpu: the simulator and the C library of its programs.
--
-- The simulator (simulator/src) drives a RISC-V core that Verilator generates from Verilog, answers
-- the core's memory accesses, traces the committed instructions and compares the core after each one
-- with a reference, the instruction set simulator Spike.
--
-- Files:
-- Base           numbers, lists, bit operations, byte memory, and the ways in which C code ends.
-- Sim.Config     simulator/Kconfig and the memory macros of include/utils/common.h.
-- Sim.State      the globals and records (CPU_state, commit_t, SIMState); set_sim_state.
-- Sim.Memory     src/memory/memory.c: host_read, pmem_read, paddr_read, the writes and the dumps.
-- Sim.Dpi        src/npc/dpi.c: dpi_instr_mem_read, dpi_mem_read, dpi_mem_write, and the rest.
-- Sim.Decode     include/riscv/decode.h: the fields of an instruction.
-- Sim.Trace      src/trace/instr_trace.c: Ring (instr_itrace and its display), Pattern
--                (parse_pattern, INSTPAT), Special (instr_special_trace).
-- Sim.Cpu        src/sim/cpu.c: register names, csr_map, the displays.
-- Sim.Difftest   src/difftest/difftest.c: is_special_instr, checkregs, checkcsrs, difftest_step.
-- Sim.Npc        src/npc/npc.c, src/sim/exec.c and sim.c: npc_single_cycle to execute.
-- Sim.Program    src/main.c: img and load_builded_img.
-- Sim.Snapshot   src/snapshot/snapshot.c: take_arch_snapshot and restore_arch_snapshot.
-- Sim.Tests      the code at concrete inputs.
-- Klib           abstract-machine/klib, the C library of the programs that run on the core.
-- Klib.Memory    strings in memory, and strlen of src/string.c.
-- Klib.Copy      the functions of src/string.c that write: strcpy to memcpy.
-- Klib.Compare   the functions of src/string.c that compare.
-- Klib.Number    int_to_str, uint_to_str and swap_str of src/stdio.c, atoi of src/stdlib.c.
-- Klib.Format    vsprintf, sprintf and printf of src/stdio.c.
-- Klib.Stdlib    rand, srand and abs of src/stdlib.c.
-- Klib.Tests     the library at concrete strings.
-- Am.Ioe         abstract-machine/am/src/riscv/npc: ioe.c, timer.c and input.c.
-- Am.Cte         cte.c of the same directory, and software-test/csr-tests/yield-os.
-- Am.Ports       the hardware ports of an x86 machine, a parameter of Am.X86.
-- Am.X86         abstract-machine/am/src/x86/qemu/ioe.c: Uart, Clock, Disk, Keyboard, Gpu,
--                Render, Apic, and Devices, the table of the registers; vme.c: Paging (ptwalk, map)
--                and Spaces (vme_init, protect, unprotect, ucontext); cte.c: Gates (cte_init) and
--                Traps (__am_irq_handle); boot/main.c: Boot (read_disk to load_kernel); all in the configuration of 32 bits.
-- Am.Native      abstract-machine/am/src/native: vme.c (protect, __am_switch, map), and __am_pmem_map
--                and __am_pmem_unmap of platform.c.
-- CpuTests       software-test/cpu-tests, the programs that check themselves on the core.
-- CpuTests.Sort  bubble-sort.c, select-sort.c and quick-sort.c.
-- CpuTests.Primes, CpuTests.Mersenne
--                goldbach.c and prime.c; isPrime of mersenne.c.
-- CpuTests.Numbers, CpuTests.Bits, CpuTests.Crc
--                pascal.c, fact.c and others on numbers; bit.c; crc32.c.
-- CpuTests.Branches, CpuTests.Recursion, CpuTests.Strings
--                the programs of a single choice, such as max.c; recursion.c; string.c on Klib.
-- CpuTests.HelloStr
--                hello-str.c on Klib.Format.
-- CpuTests.Signed, CpuTests.Matrix, CpuTests.Shift, CpuTests.Loads
--                signed sums and products; matrix-mul.c; shifts and loads of words.
-- CpuTests.Trap  include/trap.h, and the order of int.
-- CpuTests.Passes, CpuTests.Tests
--                the main functions, each run; the algorithms at concrete inputs.
--
-- The model: a function of the source is a function here, under its name; globals are a record
-- that is passed and returned. Base.Run says how a call ends: done, abort (a failed assert), exit
-- with a code, fault (undefined behaviour, such as an access outside pmem), or out_of_fuel. The
-- guest's memory is a function from the offset in pmem to a byte; a host pointer is an offset. The
-- host is little-endian. Numbers are natural numbers with the wrap of their C type written out.
--
-- Parameters: the configuration (the generated autoconf.h), of which Config.IsValid states what the
-- code relies on; the generated core (Npc.Dut), whose eval is a tree of calls of dpi.c; the
-- reference (Difftest.Reference), of which IsReference states that copied registers come back; the
-- streams of the C library (Snapshot.Stdio), of which IsStdio states what a file keeps; the ports
-- and registers of the x86 devices (Ports, Apic.Bus), of which nothing is assumed; the allocator of
-- pages (Paging.Allocator), of which IsAllocator states that a page it gives was free; the disk
-- behind the ports (Boot.Drive), of which the ATA protocol is stated; and the layout of the ELF
-- headers (Boot.Elf). Lively states what a core does that keeps committing. Other options of
-- Kconfig have their defaults. The wait for a commit runs on fuel: a core that commits within k
-- cycles needs fuel k + 1. A loop over a string runs on fuel: one more than the string has
-- characters is enough, and 11 for the digits of a number of 32 bits; vsprintf needs fuel above 11
-- and above the lengths of the format and of the text. The place of its local buffers is an
-- argument. A loop that waits for a device runs on fuel; protect needs fuel above 256, the most
-- entries of an area, and vme_init above 2 ^ 18, the most pages of one; render runs on fuel for the
-- depth of the canvases. __am_switch needs fuel above the number of pages of either address space.
-- In klib a pointer is an address, 0 is NULL, and char is unsigned, as on RISC-V; pointers do not
-- wrap. In CpuTests an array is a function of its index, an int that may be negative is its word of
-- 32 bits, and a sum or product above INT_MAX is a fault; quick_sort of n entries and each
-- partition need fuel n + 1, and isPrime of n needs fuel n + 2 (one round for each d).
--
-- Not modelled: text that is only printed, other files, the clock, the waveform, the disassembler,
-- and the start-up code that opens them; klib's snprintf and vsnprintf, which panic; Linux's contexts and signals in native; the other targets; the Verilog;
-- the vendored build tools and benchmarks.
pub mod Am
pub mod Base
pub mod CpuTests
pub mod Klib
pub mod Sim
