-- ===== src/Sim/Difftest.antt =====
-- simulator/src/difftest/difftest.c: after each committed instruction the reference, a loaded
-- library, makes a step too, and the registers of both are compared.
pub mod Checks
pub mod Step
pub mod Special
use riscv64_cpu.Base.{
  ℕ, zero, suc, ◌+◌, ◌<◌, List, [], ◌∷◌, Bool, false, ◌&&◌, ◌||◌, not, Option, none, some, ltb, leb,
  ◌==◌, ◌≡◌, if◌then◌else◌,
}
use riscv64_cpu.Base.Run.{Run, done, exit, ◌>>◌}
use riscv64_cpu.Sim.State.{CpuState, Commit}
use riscv64_cpu.Sim.Cpu.{CsrEntry, csr_map}
use riscv64_cpu.Sim.Decode.{
  get_opcode, get_func3, get_csr_id, op_load, op_store, op_system, cycle, timer, instret,
}

-- The functions of the reference that `init_difftest` looks up in the library: it runs
-- instructions, takes the registers over, and gives them.
pub record Reference : Type 1 where
  pub State : Type 0
  pub difftest_exec : ℕ → State → State
  pub regcpy_to_ref : CpuState → State → State
  pub regcpy_to_dut : State → CpuState

-- The general registers and the program counter of one are those of the other.
pub record SameRegs (a b : CpuState) : Type 0 where
  pub pc : a.pc ≡ b.pc
  pub gpr : (i : ℕ) → i < 32 → a.gpr i ≡ b.gpr i

-- What is documented of `difftest_regcpy`: registers that were copied in are copied out.
pub record IsReference (r : Reference) : Type 0 where
  pub copied :
      (cpu : CpuState) (s : r.State) → SameRegs (r.regcpy_to_dut (r.regcpy_to_ref cpu s)) cpu

-- What a check finds, the argument of `display_diff_error`.
pub data Mismatch : Type 0 where
  pc_differs : Mismatch
  gpr_differs : ℕ → Mismatch
  csr_differs : ℕ → Mismatch

-- The loop of `checkregs`, with the rounds left. `display_diff_error` does not return.
unfoldable pub check_gprs : CpuState → CpuState → ℕ → ℕ → Option Mismatch
check_gprs ref cpu zero i = none
check_gprs ref cpu (suc left) i =
    let rest = check_gprs ref cpu left (i + 1) in
    if ref.gpr i == cpu.gpr i then rest else some (gpr_differs i)

unfoldable pub checkregs : CpuState → CpuState → ℕ → Option Mismatch
checkregs ref cpu next_pc = if next_pc == ref.pc then check_gprs ref cpu 32 0 else some pc_differs

-- The loop of `checkcsrs`; the last operand of its `||` is the constant `instret` alone.
unfoldable pub check_csrs : CpuState → CpuState → List CsrEntry → Option Mismatch
check_csrs ref cpu [] = none
check_csrs ref cpu (e ∷ es) =
    let rest = check_csrs ref cpu es in
    if (e.id == cycle) || (e.id == timer) || not (instret == 0)
    then rest
    else if ref.csr e.id == cpu.csr e.id
    then rest
    else some (csr_differs e.id)

unfoldable pub checkcsrs : CpuState → CpuState → Option Mismatch
unfolding check_csrs
checkcsrs ref cpu = check_csrs ref cpu csr_map

-- `display_diff_error` prints the mismatch and leaves by `sim_exit`, which calls `exit(1)`.
unfoldable pub display_diff_error : Option Mismatch → Run (Unit {0})
display_diff_error none = done tt
display_diff_error (some m) = exit 1

unfoldable pub is_mmio_address : ℕ → Bool
is_mmio_address addr = ltb addr 0x80000000 && leb 0x10000000 addr

-- `is_special_instr`; `log_mmio` is empty without CONFIG_DIFFTEST_MMIO_DEBUG.
unfoldable pub is_special_instr : Commit → Bool
is_special_instr commit =
    let opcode = get_opcode commit.instr in
    let func3 = get_func3 commit.instr in
    let csr_id = get_csr_id commit.instr in
    if (opcode == op_system) && not (func3 == 0)
    then csr_id == timer
    else if ((opcode == op_load) || (opcode == op_store)) && is_mmio_address commit.mem_addr
    then Bool.true
    else false

module _ (r : Reference) where
  -- `difftest_step`, on the simulator's registers and the reference.
  unfoldable pub difftest_step : Commit → CpuState → r.State → Run (CpuState × r.State)
  difftest_step commit cpu s =
      let s1 = r.difftest_exec 1 s in
      let special = is_special_instr commit in
      let cpu2 = if special then record cpu { pc = commit.next_pc } else cpu in
      let s2 = if special then r.regcpy_to_ref cpu2 s1 else s1 in
      let ref_r = r.regcpy_to_dut s2 in
      do
        display_diff_error (checkregs ref_r cpu2 commit.next_pc)
        display_diff_error (checkcsrs ref_r cpu2)
        done (cpu2, s2)
