-- ===== src/CpuTests/Bits.antt =====
-- bit.c: bits of a buffer, the bit `offset` in the byte `offset / 8`.
pub mod Access
use riscv64_cpu.Base.{
  true, false, ℕ, Bool, not, ◌^◌, bit_and, ◌%◌, ◌/◌, ◌==◌, if◌then◌else◌, bit_or, ◌-◌,
}
use riscv64_cpu.Base.Bytes.{Mem, write}
use riscv64_cpu.Base.Run.{Run, done, ◌>>◌}
use riscv64_cpu.Base.Words.{u8}
use riscv64_cpu.CpuTests.Trap.{check}

-- `1 << (offset & 7)` as a `uint8_t`.
abbrev pub bit_mask : ℕ → ℕ
bit_mask offset = u8 (2 ^ (offset % 8))

unfoldable pub getbit : Mem → ℕ → Bool
getbit buf offset = not (bit_and (buf (offset / 8)) (bit_mask offset) == 0)

-- `~mask` of a byte is 255 - mask in the bits that are kept.
unfoldable pub setbit : Mem → ℕ → Bool → Mem
setbit buf offset bit =
    let p = offset / 8 in
    write buf p (
      if bit
      then u8 (bit_or (buf p) (bit_mask offset))
      else bit_and (buf p) (255 - bit_mask offset))

-- `main`
unfoldable pub bit_main : Run ℕ
unfolding getbit setbit
bit_main =
    let buf = write (write (λ i. 0) 0 0xaa) 1 0 in
    check (not (getbit buf 0))
    >> check (getbit buf 1)
    >> check (not (getbit buf 2))
    >> check (getbit buf 3)
    >> check (not (getbit buf 4))
    >> check (getbit buf 5)
    >> check (not (getbit buf 6))
    >> check (getbit buf 7)
    >> (let b = setbit (setbit (setbit (setbit buf 8 true) 9 false) 10 true) 11 false in
        let b' = setbit (setbit (setbit (setbit b 12 true) 13 false) 14 true) 15 false in
        check (b' 1 == 0x55) >> done 0)
