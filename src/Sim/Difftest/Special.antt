-- ===== src/Sim/Difftest/Special.antt =====
-- Which instructions are special.
use riscv64_cpu.Base.{◌≤◌, ◌<◌, ◌≡◌, ◌≢◌, ◌⊎◌, ◌↔◌, true, arith, ◌/◌, ◌%◌, ◌^◌}
use riscv64_cpu.Sim.State.{Commit}
use riscv64_cpu.Sim.Decode.{op_load, op_store, op_system, timer}
use riscv64_cpu.Sim.Decode.Fields.{all-IsDecoded}
use riscv64_cpu.Sim.Difftest.{is_special_instr, is_mmio_address}

-- A CSR instruction on the timer.
abbrev pub ReadsTimer : Commit → Type 0
ReadsTimer c =
    (c.instr % 2 ^ 7 ≡ op_system)
    × (c.instr / 2 ^ 12 % 2 ^ 3 ≢ 0)
    × (c.instr / 2 ^ 20 % 2 ^ 12 ≡ timer)

-- A load or store below the memory.
abbrev pub AccessesMmio : Commit → Type 0
AccessesMmio c =
    ((c.instr % 2 ^ 7 ≡ op_load) ⊎ (c.instr % 2 ^ 7 ≡ op_store))
    × (0x10000000 ≤ c.mem_addr)
    × (c.mem_addr < 0x80000000)

-- An instruction is special exactly when it is a CSR instruction on the timer, or a load or store
-- at an address from 0x10000000 up to the memory.
pub is_special_instr_iff :
    (commit : Commit) → (is_special_instr commit ≡ true) ↔ (ReadsTimer commit ⊎ AccessesMmio commit)
unfolding is_special_instr is_mmio_address
is_special_instr_iff commit = ground (arith, all-IsDecoded commit.instr)
