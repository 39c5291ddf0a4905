-- ===== src/Sim/Cpu.antt =====
-- simulator/src/sim/cpu.c: the registers' names, the table of the CSRs that are shown and compared,
-- and the displays.
use Prim.Native.String.{String}
use riscv64_cpu.Base.{ℕ, zero, suc, ◌+◌, ◌%◌, List, [], ◌∷◌, get_or, ltb, ◌==◌, Bool, if◌then◌else◌}
use riscv64_cpu.Base.Run.{Run, done, abort, ◌>>=◌}
use riscv64_cpu.Sim.State.{CpuState}

abbrev pub gpr_num : ℕ
gpr_num = 32

abbrev pub csr_num : ℕ
csr_num = 4096

-- `regs`
abbrev pub regs : List String
regs =
    "$0" ∷ "ra" ∷ "sp" ∷ "gp" ∷ "tp" ∷ "t0" ∷ "t1" ∷ "t2" ∷ "s0" ∷ "s1" ∷ "a0" ∷ "a1" ∷ "a2" ∷ "a3"
    ∷ "a4" ∷ "a5" ∷ "a6" ∷ "a7" ∷ "s2" ∷ "s3" ∷ "s4" ∷ "s5" ∷ "s6" ∷ "s7" ∷ "s8" ∷ "s9" ∷ "s10"
    ∷ "s11" ∷ "t3" ∷ "t4" ∷ "t5" ∷ "t6" ∷ []

-- `check_reg_idx` and `check_csr_idx`; a negative `int` is a bit pattern above both sizes.
unfoldable pub check_reg_idx : ℕ → Run ℕ
check_reg_idx idx = if ltb idx gpr_num then done idx else abort

unfoldable pub check_csr_idx : ℕ → Run ℕ
check_csr_idx idx = if ltb idx csr_num then done idx else abort

unfoldable pub reg_name : ℕ → Run String
unfolding check_reg_idx
reg_name idx = do i ← check_reg_idx idx; done (get_or regs i "")

-- The loop of `isa_reg_display`: each register's name with its value.
unfoldable pub reg_display_loop : CpuState → ℕ → ℕ → Run (List (String × ℕ))
unfolding reg_name
reg_display_loop s zero i = done []
reg_display_loop s (suc left) i = do
  name ← reg_name i
  rest ← reg_display_loop s left (i + 1)
  done ((name, s.gpr i) ∷ rest)

-- `isa_reg_display`: the registers and then `pc`.
unfoldable pub isa_reg_display : CpuState → Run (List (String × ℕ) × ℕ)
unfolding reg_display_loop
isa_reg_display s = do lines ← reg_display_loop s gpr_num 0; done (lines, s.pc)

-- `csr_map_t`
pub record CsrEntry : Type 0 where
  pub id : ℕ
  pub name : String

abbrev pub csr : ℕ → String → CsrEntry
csr id name = record { id = id; name = name }

-- `csr_map`
abbrev pub csr_map : List CsrEntry
csr_map =
    csr 0xc00 "cycle"
    ∷ csr 0xc01 "timer"
    ∷ csr 0xc02 "instret"
    ∷ csr 0x100 "sstatus"
    ∷ csr 0x104 "sie"
    ∷ csr 0x105 "stvec"
    ∷ csr 0x106 "scounteren"
    ∷ csr 0x140 "sscratch"
    ∷ csr 0x141 "sepc"
    ∷ csr 0x142 "scause"
    ∷ csr 0x143 "stval"
    ∷ csr 0x144 "sip"
    ∷ csr 0x180 "satp"
    ∷ csr 0xf11 "mvendorid"
    ∷ csr 0xf12 "marchid"
    ∷ csr 0xf13 "mimpid"
    ∷ csr 0xf14 "mhartid"
    ∷ csr 0xf15 "mconfigptr"
    ∷ csr 0x300 "mstatus"
    ∷ csr 0x301 "misa"
    ∷ csr 0x302 "medeleg"
    ∷ csr 0x303 "mideleg"
    ∷ csr 0x304 "mie"
    ∷ csr 0x305 "mtvec"
    ∷ csr 0x306 "mcounteren"
    ∷ csr 0x340 "mscratch"
    ∷ csr 0x341 "mepc"
    ∷ csr 0x342 "mcause"
    ∷ csr 0x343 "mtval"
    ∷ csr 0x344 "mip"
    ∷ csr 0xb00 "mcycle"
    ∷ csr 0xb02 "minstret"
    ∷ csr 0x7a0 "tselect"
    ∷ csr 0x7a1 "tdata1"
    ∷ csr 0x3a0 "pmpcfg0"
    ∷ csr 0x3a1 "pmpcfg1"
    ∷ csr 0x3a2 "pmpcfg2"
    ∷ csr 0x3a3 "pmpcfg3"
    ∷ csr 0x3b0 "pmpaddr0"
    ∷ csr 0x3b1 "pmpaddr1"
    ∷ csr 0x3b2 "pmpaddr2"
    ∷ csr 0x3b3 "pmpaddr3"
    ∷ csr 0x3b4 "pmpaddr4"
    ∷ csr 0x3b5 "pmpaddr5"
    ∷ csr 0x3b6 "pmpaddr6"
    ∷ csr 0x3b7 "pmpaddr7"
    ∷ csr 0x3b8 "pmpaddr8"
    ∷ csr 0x3b9 "pmpaddr9"
    ∷ csr 0x3ba "pmpaddr10"
    ∷ csr 0x3bb "pmpaddr11"
    ∷ csr 0x3bc "pmpaddr12"
    ∷ csr 0x3bd "pmpaddr13"
    ∷ csr 0x3be "pmpaddr14"
    ∷ csr 0x3bf "pmpaddr15"
    ∷ []

-- A cell of `isa_csr_display`: name, number and value, and whether a line ends behind it.
pub record CsrCell : Type 0 where
  pub name : String
  pub id : ℕ
  pub value : ℕ
  pub ends_line : Bool

unfoldable pub csr_display_loop : CpuState → List CsrEntry → ℕ → List CsrCell
csr_display_loop s [] i = []
csr_display_loop s (e ∷ es) i =
    record { name = e.name; id = e.id; value = s.csr e.id; ends_line = (i + 1) % 2 == 0 }
    ∷ csr_display_loop s es (i + 1)

unfoldable pub isa_csr_display : CpuState → List CsrCell
unfolding csr_display_loop
isa_csr_display s = csr_display_loop s csr_map 0
