-- ===== src/Sim/Decode/Fields.antt =====
-- The fields make up the instruction.
use riscv64_cpu.Base.{ℕ, ◌+◌, ◌*◌, ◌/◌, ◌%◌, ◌^◌, ◌<◌, ◌≡◌, arith}
use riscv64_cpu.Base.Bits.{bit_and_mask}
use riscv64_cpu.Sim.Decode.{get_opcode, get_rd, get_rs1, get_rs2, get_func3, get_func7, get_csr_id}

-- The fields as quotients and remainders.
pub record IsDecoded (i : ℕ) : Type 0 where
  pub opcode : get_opcode i ≡ i % 2 ^ 7
  pub rd : get_rd i ≡ i / 2 ^ 7 % 2 ^ 5
  pub func3 : get_func3 i ≡ i / 2 ^ 12 % 2 ^ 3
  pub rs1 : get_rs1 i ≡ i / 2 ^ 15 % 2 ^ 5
  pub rs2 : get_rs2 i ≡ i / 2 ^ 20 % 2 ^ 5
  pub func7 : get_func7 i ≡ i / 2 ^ 25 % 2 ^ 7
  pub csr_id : get_csr_id i ≡ i / 2 ^ 20 % 2 ^ 12

pub all-IsDecoded : (i : ℕ) → IsDecoded i
unfolding get_opcode get_rd get_func3 get_rs1 get_rs2 get_func7 get_csr_id
all-IsDecoded i = record {
  opcode = bit_and_mask 7 i;
  rd = bit_and_mask 5 (i / 2 ^ 7);
  func3 = bit_and_mask 3 (i / 2 ^ 12);
  rs1 = bit_and_mask 5 (i / 2 ^ 15);
  rs2 = bit_and_mask 5 (i / 2 ^ 20);
  func7 = bit_and_mask 7 (i / 2 ^ 25);
  csr_id = bit_and_mask 12 (i / 2 ^ 20);
}

-- The six fields of an instruction are its bits, each once, and the CSR's number is the two
-- uppermost.
pub fields_lem :
    (i : ℕ)
    → i < 2 ^ 32
    → (get_opcode i
          + 2 ^ 7 * get_rd i
          + 2 ^ 12 * get_func3 i
          + 2 ^ 15 * get_rs1 i
          + 2 ^ 20 * get_rs2 i
          + 2 ^ 25 * get_func7 i
        ≡ i)
      × (get_csr_id i ≡ get_rs2 i + 2 ^ 5 * get_func7 i)
fields_lem i h = omega (arith, all-IsDecoded i)
