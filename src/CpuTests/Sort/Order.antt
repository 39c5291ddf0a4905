-- ===== src/CpuTests/Sort/Order.antt =====
-- What the sorts promise.
use riscv64_cpu.Base.Bytes.{Mem}
use riscv64_cpu.Base.Arrays.{count}
use riscv64_cpu.CpuTests.Trap.{signed}
use riscv64_cpu.Base.{ℕ, Bool, ◌≤◌, ◌<◌, ◌≡◌}

-- The entries from `lo` to `hi` ascend, in the order of `int`.
abbrev pub Ascends : Mem → ℕ → ℕ → Type 0
Ascends a lo hi = (i j : ℕ) → lo ≤ i → i ≤ j → j < hi → signed (a i) ≤ signed (a j)

-- No entry before `m` is above one from `m` to `n`.
abbrev pub Split : Mem → ℕ → ℕ → ℕ → Type 0
Split a lo m n = (i j : ℕ) → lo ≤ i → i < m → m ≤ j → j < n → signed (a i) ≤ signed (a j)

-- An array sorted from another: ascending, of the same entries, and the same behind them.
pub record Sorted (a b : Mem) (n : ℕ) : Type 0 where
  pub ascends : Ascends b 0 n
  pub counts : (p : ℕ → Bool) → count p b n ≡ count p a n
  pub outside : (k : ℕ) → n ≤ k → b k ≡ a k
