-- ===== src/Sim/Tests/Snapshots.antt =====
-- A snapshot on a file that is kept as an array.
use riscv64_cpu.Base.{some, none, Option, ℕ, ◌%◌, ◌+◌, if◌then◌else◌, min, ◌^◌, leb, ◌-◌}
use riscv64_cpu.Sim.Config.{kconfig}
use riscv64_cpu.Sim.State.{CpuState}
use riscv64_cpu.Sim.Snapshot.{Stdio, take_arch_snapshot}

record Disk : Type 0 where
  content : ℕ → ℕ
  size : ℕ
  position : ℕ

abbrev blank : Disk
blank = record { content = λ i. 0; size = 0; position = 0 }

-- The disk that was opened.
abbrev disk_of : Option Disk → Disk
disk_of none = blank
disk_of (some d) = d

abbrev splice : (ℕ → ℕ) → ℕ → (ℕ → ℕ) → ℕ → ℕ
splice old at_ b i = if leb at_ i then b (i - at_) else old i

abbrev array_file : Stdio
array_file = record {
  Fs = Disk;
  fopen_wb = λ f. some blank;
  fopen_rb = λ f. some (record { content = f.content; size = f.size; position = 0 });
  fwrite = λ b n f.
      (n, record { content = splice f.content f.size b; size = f.size + n; position = f.size + n });
  fread = λ n f. (
    min n (f.size - f.position),
    λ i. f.content (f.position + i),
    record { content = f.content; size = f.size; position = f.position + n },
  );
  fclose = λ f. f;
}

abbrev other : CpuState
other = record { gpr = λ i. 7; pc = 0; csr = λ i. 7 }

abbrev running : CpuState
running = record { gpr = λ i. i % 32; pc = 0x80000004; csr = λ i. 0x1800 + i % 2 ^ 12 }

abbrev saved : Disk
saved = (take_arch_snapshot array_file kconfig running (λ i. i % 256) blank).1

abbrev reopened : Disk
reopened = record saved { position = 0 }
