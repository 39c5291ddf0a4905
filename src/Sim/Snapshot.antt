-- ===== src/Sim/Snapshot.antt =====
-- simulator/src/snapshot/snapshot.c: the registers and the memory in a file. The messages are left
-- out.
pub mod Image
pub mod RoundTrip
use riscv64_cpu.Base.{
  zero, suc, refl, none, some, true, false, Bool, Option, if◌then◌else◌, ℕ, ltb, not, ◌*◌, ◌/◌, ◌+◌,
  ◌==◌, ◌^◌, ◌%◌, ◌-◌,
}
use riscv64_cpu.Base.Bytes.{Mem, load_le}
use riscv64_cpu.Sim.Config.{Config}
use riscv64_cpu.Sim.State.{CpuState}

-- The C library's streams, on the one file that the snapshot is in. `fwrite` and `fread` count
-- bytes; `fread` gives the bytes that it read.
pub record Stdio : Type 1 where
  pub Fs : Type 0
  pub fopen_wb : Fs → Option Fs
  pub fopen_rb : Fs → Option Fs
  pub fwrite : (ℕ → ℕ) → ℕ → Fs → ℕ × Fs
  pub fread : ℕ → Fs → ℕ × (ℕ → ℕ) × Fs
  pub fclose : Fs → Fs

-- The words of a `CPU_state` in their order, and its bytes.
unfoldable pub word_of : CpuState → ℕ → ℕ
word_of cpu i = if ltb i 32 then cpu.gpr i else if i == 32 then cpu.pc else cpu.csr (i - 33)

unfoldable pub image : CpuState → ℕ → ℕ
unfolding word_of
image cpu j = word_of cpu (j / 8) / 256 ^ (j % 8) % 256

abbrev pub sizeof_cpu : ℕ
sizeof_cpu = 8 * (32 + 1 + 4096)

-- The `CPU_state` that bytes stand for.
unfoldable pub of_image : (ℕ → ℕ) → CpuState
unfolding load_le
of_image b = record {
  gpr = λ i. load_le 8 b (8 * i);
  pc = load_le 8 b (8 * 32);
  csr = λ i. load_le 8 b (8 * (33 + i));
}

-- Bytes of which the first `k` were overwritten.
unfoldable pub overlay : ℕ → (ℕ → ℕ) → (ℕ → ℕ) → ℕ → ℕ
overlay k new old j = if ltb j k then new j else old j

module _ (s : Stdio) (c : Config) where
  -- `take_arch_snapshot` behind its `fopen`.
  unfoldable pub write_snapshot : CpuState → Mem → s.Fs → Option s.Fs → Bool × s.Fs
  unfolding image
  write_snapshot state mem f none = (false, f)
  write_snapshot state mem f (some f1) =
      let (n, f2) = s.fwrite (image state) sizeof_cpu f1 in
      let (k, f3) = s.fwrite mem c.msize f2 in
      if n == sizeof_cpu
      then if k == c.msize then (true, s.fclose f3) else (false, s.fclose f3)
      else (false, s.fclose f2)

  unfoldable pub take_arch_snapshot : CpuState → Mem → s.Fs → Bool × s.Fs
  unfolding write_snapshot
  take_arch_snapshot state mem f = write_snapshot state mem f (s.fopen_wb f)

  -- What `restore_arch_snapshot` returns, and what it leaves in its arguments and on the disk.
  pub record Restored : Type 0 where
    pub ok : Bool
    pub state : CpuState
    pub mem : Mem
    pub fs : s.Fs

  -- `restore_arch_snapshot` behind its `fopen`.
  unfoldable pub read_snapshot : CpuState → Mem → s.Fs → Option s.Fs → Restored
  unfolding image of_image overlay
  read_snapshot state mem f none = record { ok = false; state = state; mem = mem; fs = f }
  read_snapshot state mem f (some f1) =
      let (n, b, f2) = s.fread sizeof_cpu f1 in
      let state' = of_image (overlay n b (image state)) in
      let (k, d, f3) = s.fread c.msize f2 in
      if n == sizeof_cpu
      then record { ok = k == c.msize; state = state'; mem = overlay k d mem; fs = s.fclose f3 }
      else record { ok = false; state = state'; mem = mem; fs = s.fclose f2 }

  unfoldable pub restore_arch_snapshot : CpuState → Mem → s.Fs → Restored
  unfolding read_snapshot
  restore_arch_snapshot state mem f = read_snapshot state mem f (s.fopen_rb f)
