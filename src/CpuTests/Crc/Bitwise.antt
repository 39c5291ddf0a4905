-- ===== src/CpuTests/Crc/Bitwise.antt =====
-- The table of crc32.c against the division bit by bit.
use riscv64_cpu.Base.{
  inl, inr, zero, suc, refl, true, ℕ, ◌≡◌, ap, bit_xor, ◌+◌, ◌<◌, arith, ◌*◌, ◌/◌, ◌%◌, ◌^◌,
  Bool-cases, bit_and, sym, ◌∙◌, ◌==◌,
}
use riscv64_cpu.Base.Words.{u8}
use riscv64_cpu.Base.Bytes.{Mem, write_self, write_ne, write}
use riscv64_cpu.Base.Bits.{mul-pow_suc, bit_and_mask}
use riscv64_cpu.Base.Xor.{
  half-bit_xor, mod-bit_xor, bit_xor_comm, bit_xor_right_comm, bit_xor_lt, bit_xor_parts,
}
use riscv64_cpu.CpuTests.Crc.{
  CrcTable, crc_step, crc_steps, fill_table, get_table, crc_loop, rc_crc32, not32,
}
use native.Mathlib.Decide.{ℕ_discrete}

-- The register after the bytes, each shifted in bit by bit.
unfoldable pub shifted : ℕ → Mem → ℕ → ℕ → ℕ
shifted zero buf p crc = crc
shifted (suc left) buf p crc = shifted left buf (p + 1) (crc_steps 8 (bit_xor crc (u8 (buf p))))

-- A number that is even does not reach the lowest bit.
crc_step-even : (x h : ℕ) → crc_step (bit_xor x (h * 2)) ≡ bit_xor (crc_step x) h
unfolding crc_step
crc_step-even x h =
    let low : bit_and (bit_xor x (h * 2)) 1 ≡ bit_and x 1 =
      omega (arith, bit_and_mask 1 (bit_xor x (h * 2)), bit_and_mask 1 x, mod-bit_xor x (h * 2)) in
    let half : bit_xor x (h * 2) / 2 ≡ bit_xor (x / 2) h =
      half-bit_xor x (h * 2) ∙ ap (λ (t : ℕ). bit_xor (x / 2) t) (omega arith) in
    elim (Bool-cases (bit_and x 1 == 0)) [
      | inl e ↦ rw (low, half, e) refl
      | inr e ↦ rw (low, half, e) (bit_xor_right_comm (x / 2) h 0xedb88320)
    ]

crc_steps-high : (k x h : ℕ) → crc_steps k (bit_xor x (h * 2 ^ k)) ≡ bit_xor (crc_steps k x) h
unfolding crc_steps
crc_steps-high zero x h = ap (λ (t : ℕ). bit_xor x t) (omega arith)
crc_steps-high (suc k) x h =
    rw (mul-pow_suc h k, crc_step-even x (h * 2 ^ k)) (crc_steps-high k (crc_step x) h)

-- One byte: the low byte of the register goes through the table.
crc_steps_byte :
    (crc octet : ℕ)
    → crc_steps 8 (bit_xor crc octet)
      ≡ bit_xor (crc / 256) (crc_steps 8 (bit_xor (crc % 256) octet))
crc_steps_byte crc octet =
    let low = crc % 256 in
    let high = crc / 256 in
    ap (λ (t : ℕ). crc_steps 8 (bit_xor t octet)) (sym (bit_xor_parts 8 crc))
    ∙ ap (crc_steps 8) (bit_xor_right_comm low (high * 256) octet)
    ∙ crc_steps-high 8 (bit_xor low octet) high
    ∙ bit_xor_comm (crc_steps 8 (bit_xor low octet)) high

abbrev Filled : Mem → ℕ → Type 0
Filled t n = (k : ℕ) → k < n → t k ≡ crc_steps 8 k

fill_table-Filled : (left i : ℕ) (t : Mem) → Filled t i → Filled (fill_table left i t) (i + left)
unfolding fill_table
fill_table-Filled zero i t f = λ k lt. f k (omega arith)
fill_table-Filled (suc left) i t f =
    let next : Filled (write t i (crc_steps 8 i)) (i + 1) = λ k lt. elim (ℕ_discrete k i) [
      | yes e ↦ rw e (write_self t i (crc_steps 8 i))
      | no ne ↦ write_ne t i (crc_steps 8 i) k (λ e. ne (sym e)) ∙ f k (omega arith)
    ] in
    λ k lt. fill_table-Filled left (i + 1) (write t i (crc_steps 8 i)) next k (omega arith)

-- A table that is there is the right one.
abbrev pub IsTable : CrcTable → Type 0
IsTable s = s.have_table ≡ true → Filled s.table 256

get_table-Filled : (s : CrcTable) → IsTable s → Filled (get_table s).table 256
unfolding get_table
get_table-Filled s h = elim (Bool-cases s.have_table) [
  | inl e ↦ λ k lt. rw e (h e k lt)
  | inr e ↦ λ k lt. rw e (fill_table-Filled 256 0 s.table (λ j l. absurd (omega arith)) k lt)
]

crc_loop_lem :
    (left : ℕ) (t buf : Mem) (p crc : ℕ)
    → Filled t 256
    → crc_loop left t buf p crc ≡ shifted left buf p crc
unfolding crc_loop shifted
crc_loop_lem zero t buf p crc f = refl
crc_loop_lem (suc left) t buf p crc f =
    let octet = u8 (buf p) in
    let entry : t (bit_xor (crc % 256) octet) ≡ crc_steps 8 (bit_xor (crc % 256) octet) =
      f (bit_xor (crc % 256) octet) (bit_xor_lt 8 (crc % 256) octet (omega arith) (omega arith)) in
    rw (crc_steps_byte crc octet, bit_and_mask 8 crc, entry)
      (crc_loop_lem left t buf (p + 1)
        (bit_xor (crc / 256) (crc_steps 8 (bit_xor (crc % 256) octet))) f)

-- With no table yet or one of an earlier call, `rc_crc32` gives the remainder of the division bit
-- by bit, and leaves such a table.
pub rc_crc32_lem :
    (s : CrcTable) (crc : ℕ) (buf : Mem) (p len : ℕ)
    → IsTable s
    → ((rc_crc32 s crc buf p len).0 ≡ not32 (shifted len buf p (not32 crc)))
      × IsTable (rc_crc32 s crc buf p len).1
unfolding rc_crc32
rc_crc32_lem s crc buf p len h =
    let filled = get_table-Filled s h in
    (ap not32 (crc_loop_lem len (get_table s).table buf p (not32 crc) filled), λ e. filled)
