-- ===== src/CpuTests/Crc.antt =====
-- crc32.c: `uint32_t` numbers, and the two static variables of `rc_crc32`.
pub mod Bitwise
use riscv64_cpu.Base.{
  zero, suc, [], ◌∷◌, true, false, bit_xor, Bool, List, if◌then◌else◌, ℕ, bit_and, ◌+◌, ◌-◌, ◌==◌,
}
use riscv64_cpu.Base.Words.{u8, ◌>>>◌}
use riscv64_cpu.Base.Bytes.{Mem, write}
use riscv64_cpu.CpuTests.Trap.{check, array_of}
use riscv64_cpu.Base.Run.{Run, ◌>>◌, done}

-- A round of the innermost loop, and the loop.
unfoldable pub crc_step : ℕ → ℕ
crc_step rem = if bit_and rem 1 == 0 then rem >>> 1 else bit_xor (rem >>> 1) 0xedb88320

unfoldable pub crc_steps : ℕ → ℕ → ℕ
unfolding crc_step
crc_steps zero rem = rem
crc_steps (suc left) rem = crc_steps left (crc_step rem)

-- The loop that fills the table.
unfoldable pub fill_table : ℕ → ℕ → Mem → Mem
unfolding crc_steps
fill_table zero i table = table
fill_table (suc left) i table = fill_table left (i + 1) (write table i (crc_steps 8 i))

pub record CrcTable : Type 0 where
  pub have_table : Bool
  pub table : Mem

abbrev pub no_table : CrcTable
no_table = record { have_table = false; table = λ i. 0 }

unfoldable pub get_table : CrcTable → CrcTable
unfolding fill_table
get_table s =
    if s.have_table then s else record { have_table = true; table = fill_table 256 0 s.table }

-- The loop over the bytes.
unfoldable pub crc_loop : ℕ → Mem → Mem → ℕ → ℕ → ℕ
crc_loop zero table buf p crc = crc
crc_loop (suc left) table buf p crc =
    let octet = u8 (buf p) in
    crc_loop left table buf (p + 1) (bit_xor (crc >>> 8) (table (bit_xor (bit_and crc 0xff) octet)))

-- `~` of 32 bits
abbrev pub not32 : ℕ → ℕ
not32 x = 0xffffffff - x

unfoldable pub rc_crc32 : CrcTable → ℕ → Mem → ℕ → ℕ → ℕ × CrcTable
unfolding get_table crc_loop
rc_crc32 s crc buf p len =
    let s' = get_table s in (not32 (crc_loop len s'.table buf p (not32 crc)), s')

-- `STR`
abbrev pub str : List ℕ
str =
    84 ∷ 104 ∷ 101 ∷ 32 ∷ 113 ∷ 117 ∷ 105 ∷ 99 ∷ 107 ∷ 32 ∷ 98 ∷ 114 ∷ 111 ∷ 119 ∷ 110 ∷ 32 ∷ 102
    ∷ 111 ∷ 120 ∷ 32 ∷ 106 ∷ 117 ∷ 109 ∷ 112 ∷ 115 ∷ 32 ∷ 111 ∷ 118 ∷ 101 ∷ 114 ∷ 32 ∷ 116 ∷ 104
    ∷ 101 ∷ 32 ∷ 108 ∷ 97 ∷ 122 ∷ 121 ∷ 32 ∷ 100 ∷ 111 ∷ 103 ∷ []

-- `main`
unfoldable pub crc_main : Run ℕ
unfolding rc_crc32
crc_main =
    let res = (rc_crc32 no_table 0 (array_of str) 0 43).0 in check (res == 0x414fa339) >> done 0
