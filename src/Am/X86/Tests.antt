-- ===== src/Am/X86/Tests.antt =====
-- The devices at concrete inputs.
use riscv64_cpu.Base.{some, refl, ◌*◌, ◌≡◌, ℕ, ◌<◌}
use riscv64_cpu.Am.X86.Gates.{Gate, gate, am_irqall, cte_init}
use riscv64_cpu.Am.X86.Gates.Levels.{expected, cte_init_lem}
use riscv64_cpu.Am.X86.Gpu.{Draw, Screen, to_pixel}
use riscv64_cpu.Am.X86.Keyboard.{keylut}
use riscv64_cpu.Am.X86.Clock.{from_bcd}
use riscv64_cpu.Base.Run.{done}

-- Two rows of three pixels at the right border of a screen of 4 by 3.
abbrev sprite : Draw
sprite = record { x = 2; y = 1; w = 3; h = 2; pixels = λ i. 0x10000 * i }

abbrev screen : Screen
screen = record { width = 4; height = 3; fb = λ k. to_pixel 0xff }

-- The left Alt key is reported as the right one.
left_alt : keylut 0x38 ≡ 71
unfolding keylut
left_alt = refl

twelve : from_bcd 0x12 ≡ 12
unfolding from_bcd
twelve = refl

-- An empty table, and a handler that is a number here.
abbrev no_gates : ℕ → Gate
no_gates n = gate am_irqall 3

cte_init_lem_example :
    (table : ℕ → Gate) × (cte_init {H = ℕ} 0 (some 7) no_gates ≡ done (table, some 7))
    × ((n : ℕ) → n < 256 → table n ≡ expected n)
cte_init_lem_example = cte_init_lem {H = ℕ} 7 no_gates
