-- ===== src/Sim/Snapshot/RoundTrip.antt =====
-- A snapshot restores what was taken.
use riscv64_cpu.Base.{some, ℕ, ◌≡◌, ◌+◌, ◌<◌, ◌≤◌}
use riscv64_cpu.Base.Bytes.{Mem}
use riscv64_cpu.Sim.Config.{Config}
use riscv64_cpu.Sim.State.{CpuState}
use riscv64_cpu.Sim.Snapshot.{Stdio, image, sizeof_cpu}

-- What the C standard says of the streams, for a file with contents and a position: a new file is
-- empty, whole writes append, reads give what stands there, and closing keeps the contents.
pub record IsStdio (s : Stdio) : Type 0 where
  pub size : s.Fs → ℕ
  pub position : s.Fs → ℕ
  pub content : s.Fs → ℕ → ℕ
  pub new_ : (f g : s.Fs) → s.fopen_wb f ≡ some g → size g ≡ 0
  pub written :
      (b : ℕ → ℕ) (n : ℕ) (f : s.Fs) → (s.fwrite b n f).0 ≡ n → size (s.fwrite b n f).1 ≡ size f + n
  pub appended :
      (b : ℕ → ℕ) (n : ℕ) (f : s.Fs)
      → (s.fwrite b n f).0 ≡ n
      → (i : ℕ) → i < n
      → content (s.fwrite b n f).1 (size f + i) ≡ b i
  pub kept :
      (b : ℕ → ℕ) (n : ℕ) (f : s.Fs)
      → (i : ℕ) → i < size f
      → content (s.fwrite b n f).1 i ≡ content f i
  pub closed_size : (f : s.Fs) → size (s.fclose f) ≡ size f
  pub closed : (f : s.Fs) (i : ℕ) → content (s.fclose f) i ≡ content f i
  pub opened : (f g : s.Fs) → s.fopen_rb f ≡ some g → position g ≡ 0
  pub opened_size : (f g : s.Fs) → s.fopen_rb f ≡ some g → size g ≡ size f
  pub opened_content : (f g : s.Fs) → s.fopen_rb f ≡ some g → (i : ℕ) → content g i ≡ content f i
  pub read_count : (n : ℕ) (f : s.Fs) → position f + n ≤ size f → (s.fread n f).0 ≡ n
  pub read :
      (n : ℕ) (f : s.Fs)
      → position f + n ≤ size f
      → (i : ℕ) → i < n
      → (s.fread n f).1 i ≡ content f (position f + i)
  pub advanced :
      (n : ℕ) (f : s.Fs) → position f + n ≤ size f → position (s.fread n f).2 ≡ position f + n
  pub read_size : (n : ℕ) (f : s.Fs) → size (s.fread n f).2 ≡ size f
  pub read_content : (n : ℕ) (f : s.Fs) (i : ℕ) → content (s.fread n f).2 i ≡ content f i

module _ (s : Stdio) (laws : IsStdio s) (c : Config) where
  -- What a file holds after a snapshot of `cpu` and `mem`.
  record Saved (cpu : CpuState) (mem : Mem) (f : s.Fs) : Type 0 where
    pub size : laws.size f ≡ sizeof_cpu + c.msize
    pub state_bytes : (i : ℕ) → i < sizeof_cpu → laws.content f i ≡ image cpu i
    pub mem_bytes : (i : ℕ) → i < c.msize → laws.content f (sizeof_cpu + i) ≡ mem i

  -- What the two reads give.
  record Loaded (cpu : CpuState) (mem : Mem) (g : s.Fs) : Type 0 where
    pub count : (s.fread sizeof_cpu g).0 ≡ sizeof_cpu
    pub bytes : (i : ℕ) → i < sizeof_cpu → (s.fread sizeof_cpu g).1 i ≡ image cpu i
    pub mem_count : (s.fread c.msize (s.fread sizeof_cpu g).2).0 ≡ c.msize
    pub mem_bytes : (i : ℕ) → i < c.msize → (s.fread c.msize (s.fread sizeof_cpu g).2).1 i ≡ mem i
