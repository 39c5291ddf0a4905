-- ===== src/CpuTests/Recursion.antt =====
-- recursion.c: four functions that call each other through the table `func`.
use riscv64_cpu.Base.{zero, suc, ℕ, ◌+◌, ◌/◌, ◌==◌, if◌then◌else◌, ◌*◌, ltb}
use riscv64_cpu.Base.Run.{Run, done, out_of_fuel, ◌>>=◌, ◌>>◌}
use riscv64_cpu.CpuTests.Trap.{check}

pub data Fn : Type 0 where
  f0 f1 f2 f3 : Fn

-- `rec` and `lvl`
pub record Counts : Type 0 where
  pub rec : ℕ
  pub lvl : ℕ

-- The first two lines of each function.
abbrev pub enter : ℕ → Counts → Counts
enter l s = record { rec = s.rec + 1; lvl = if ltb s.lvl l then l else s.lvl }

-- A call of one of them, on fuel for the depth of the calls.
unfoldable pub func : ℕ → Fn → ℕ → ℕ → Counts → Run (ℕ × Counts)
func zero f n l s = out_of_fuel
func (suc fuel) f zero l s = done (1, enter l s)
func (suc fuel) f0 (suc n) l s = func fuel f3 (suc n / 3) (l + 1) (enter l s)
func (suc fuel) f1 (suc n) l s = func fuel f0 n (l + 1) (enter l s)
func (suc fuel) f2 (suc n) l s =
    func fuel f1 (suc n) (l + 1) (enter l s) >>= λ r. done (r.0 + 9, r.1)
func (suc fuel) f3 (suc n) l s = func fuel f2 (suc n / 2) (l + 1) (enter l s) >>= λ r.
    func fuel f2 (suc n / 2) (l + 1) r.1 >>= λ q. done (r.0 * 3 + q.0 * 2, q.1)

-- `main`, with the depth that it expects.
unfoldable pub recursion_main : Run ℕ
unfolding func
recursion_main = func 21 f0 14371 0 (record { rec = 0; lvl = 0 }) >>= λ r.
    check (r.0 == 38270) >> check (r.1.rec == 218) >> check (r.1.lvl == 20) >> done 0
