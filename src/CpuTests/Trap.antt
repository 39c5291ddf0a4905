-- ===== src/CpuTests/Trap.antt =====
-- include/trap.h, and `int` as a word of 32 bits in two's complement.
use riscv64_cpu.Base.{
  zero, suc, refl, true, Bool, ℕ, if◌then◌else◌, ltb, ◌+◌, ◌^◌, ◌%◌, List, ◌≤◌, ◌<◌, get_or, ◌≡◌,
  arith,
}
use riscv64_cpu.Base.Run.{Run, done, exit, ◌>>◌}
use riscv64_cpu.Base.Bytes.{Mem}

-- `check`, which calls `halt(1)`.
abbrev pub check : Bool → Run (Unit {0})
check cond = if cond then done tt else exit 1

-- The order of `int`, and its tests.
abbrev pub signed : ℕ → ℕ
signed x = (x + 2 ^ 31) % 2 ^ 32

abbrev pub gt_int : ℕ → ℕ → Bool
gt_int x y = ltb (signed y) (signed x)

abbrev pub lt_int : ℕ → ℕ → Bool
lt_int x y = ltb (signed x) (signed y)

-- `for(i = 0; i < n; i ++) check(p i);`, with the rounds left.
unfoldable pub check_from : (ℕ → Bool) → ℕ → ℕ → Run (Unit {0})
check_from p zero i = done tt
check_from p (suc left) i = check (p i) >> check_from p left (i + 1)

-- A static array with its initial entries.
abbrev pub array_of : List ℕ → Mem
array_of l i = get_or l i 0

-- Checks that all passed.
pub check_from-done :
    (p : ℕ → Bool) (left i : ℕ)
    → ((k : ℕ) → i ≤ k → k < i + left → p k ≡ true)
    → check_from p left i ≡ done tt
unfolding check_from
check_from-done p zero i h = refl
check_from-done p (suc left) i h =
    let rest = check_from-done p left (i + 1) (λ k lo hi. h k (omega arith) (omega arith)) in
    rw (h i (omega arith) (omega arith)) rest
