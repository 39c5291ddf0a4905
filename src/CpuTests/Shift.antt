-- ===== src/CpuTests/Shift.antt =====
-- shift.c and load-store.c: words of 32 bits, and numbers of 16 bits in memory.
use riscv64_cpu.Base.{[], ◌∷◌, List, ℕ, if◌then◌else◌, ◌+◌, ◌/◌, ◌==◌, leb, ◌^◌, ◌%◌, ◌-◌, ◌*◌}
use riscv64_cpu.Base.Run.{Run, done, ◌>>◌}
use riscv64_cpu.Base.Words.{◌>>>◌}
use riscv64_cpu.CpuTests.Trap.{check_from, array_of}
use riscv64_cpu.Base.Bytes.{Mem, load_le}

abbrev pub shift_data : List ℕ
shift_data =
    305419896 ∷ 2557891634 ∷ 0 ∷ 4026142720 ∷ 2147483647 ∷ 2147483648 ∷ 51 ∷ 4294967295 ∷ []

abbrev pub srl_ans : List ℕ
srl_ans = 2386092 ∷ 19983528 ∷ 0 ∷ 31454240 ∷ 16777215 ∷ 16777216 ∷ 0 ∷ 33554431 ∷ []

abbrev pub srlv_ans : List ℕ
srlv_ans = 19088743 ∷ 79934113 ∷ 0 ∷ 31454240 ∷ 8388607 ∷ 4194304 ∷ 0 ∷ 2097151 ∷ []

abbrev pub srav_ans : List ℕ
srav_ans = 19088743 ∷ 4240683681 ∷ 0 ∷ 4292867104 ∷ 8388607 ∷ 4290772992 ∷ 0 ∷ 4294967295 ∷ []

-- A shift of an `int` to the right keeps the sign.
abbrev pub sra : ℕ → ℕ → ℕ
sra x k = if leb (2 ^ 31) x then 2 ^ 32 - 1 - ((2 ^ 32 - 1 - x) >>> k) else x >>> k

-- `main` of shift.c
unfoldable pub shift_main : Run ℕ
unfolding check_from
shift_main =
    let values = array_of shift_data in
    check_from (λ i. (values i >>> 7) == array_of srl_ans i) 8 0
    >> check_from (λ i. sra (values i) (i + 4) == array_of srav_ans i) 8 0
    >> check_from (λ i. (values i >>> (i + 4)) == array_of srlv_ans i) 8 0
    >> done 0

abbrev pub half_words : List ℕ
half_words = 0 ∷ 600 ∷ 19132 ∷ 32767 ∷ 32768 ∷ 33024 ∷ 43981 ∷ 65535 ∷ []

abbrev pub lh_ans : List ℕ
lh_ans = 0 ∷ 600 ∷ 19132 ∷ 32767 ∷ 4294934528 ∷ 4294934784 ∷ 4294945741 ∷ 4294967295 ∷ []

abbrev pub lhu_ans : List ℕ
lhu_ans = 0 ∷ 600 ∷ 19132 ∷ 32767 ∷ 32768 ∷ 33024 ∷ 43981 ∷ 65535 ∷ []

abbrev pub sh_ans : List ℕ
sh_ans = 65533 ∷ 65527 ∷ 65503 ∷ 65407 ∷ 65023 ∷ 63487 ∷ 57343 ∷ 32767 ∷ []

abbrev pub lwlr_ans : List ℕ
lwlr_ans = 3154270208 ∷ 8388426 ∷ 3447783552 ∷ 16777131 ∷ []

-- `mem` in memory, the low byte first, and a word from an address in it.
abbrev pub half_bytes : Mem
half_bytes a = array_of half_words (a / 2) / 256 ^ (a % 2) % 256

-- A `short` as an `unsigned`
abbrev pub from_short : ℕ → ℕ
from_short x = ((x + 2 ^ 15) % 2 ^ 16 + 2 ^ 32 - 2 ^ 15) % 2 ^ 32

-- `main` of load-store.c; the last loop reads each entry back at once.
unfoldable pub load_store_main : Run ℕ
unfolding check_from
load_store_main =
    let mem = array_of half_words in
    check_from (λ i. from_short (mem i) == array_of lh_ans i) 8 0
    >> check_from (λ i. mem i == array_of lhu_ans i) 8 0
    >> check_from (λ i. load_le 4 half_bytes (1 + 4 * i) == array_of lwlr_ans i) (8 / 2 - 1) 0
    >> check_from (λ i. (2 ^ 32 - 1 - 2 ^ (2 * i + 1)) % 2 ^ 16 == array_of sh_ans i) 8 0
    >> done 0
