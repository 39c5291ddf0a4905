-- ===== src/Sim/Decode.antt =====
-- simulator/include/riscv/decode.h and csr.h: the fields of an instruction and the constants.
pub mod Fields
use riscv64_cpu.Base.{ℕ, bit_and}
use riscv64_cpu.Base.Words.{◌>>>◌}

unfoldable pub get_opcode : ℕ → ℕ
get_opcode i = bit_and i 0x7f

unfoldable pub get_rd : ℕ → ℕ
get_rd i = bit_and (i >>> 7) 0x1f

unfoldable pub get_rs1 : ℕ → ℕ
get_rs1 i = bit_and (i >>> 15) 0x1f

unfoldable pub get_rs2 : ℕ → ℕ
get_rs2 i = bit_and (i >>> 20) 0x1f

unfoldable pub get_csr_id : ℕ → ℕ
get_csr_id i = bit_and (i >>> 20) 0xfff

unfoldable pub get_func3 : ℕ → ℕ
get_func3 i = bit_and (i >>> 12) 0x7

unfoldable pub get_func7 : ℕ → ℕ
get_func7 i = bit_and (i >>> 25) 0x7f

abbrev pub op_load : ℕ
op_load = 0b0000011

abbrev pub op_store : ℕ
op_store = 0b0100011

abbrev pub op_system : ℕ
op_system = 0b1110011

abbrev pub inst_ebreak : ℕ
inst_ebreak = 0x00100073

-- `enum csr_id`, the identifiers that the code names.
abbrev pub cycle : ℕ
cycle = 0xc00

abbrev pub timer : ℕ
timer = 0xc01

abbrev pub instret : ℕ
instret = 0xc02
