-- ===== src/Sim/Snapshot/Image.antt =====
-- The bytes of a `CPU_state` stand for it.
use riscv64_cpu.Base.{refl, ℕ, ◌*◌, ◌<◌, ◌≡◌, ◌^◌, ◌≤◌, ◌%◌, ◌+◌, ◌/◌, arith, ap, ◌∙◌, ◌-◌}
use riscv64_cpu.Base.Bytes.{load_le}
use riscv64_cpu.Sim.State.{CpuState}
use riscv64_cpu.Sim.Snapshot.{word_of, image, of_image, sizeof_cpu}

-- The registers are numbers of 64 bits.
pub record IsState (cpu : CpuState) : Type 0 where
  pub gpr : (i : ℕ) → cpu.gpr i < 2 ^ 64
  pub pc : cpu.pc < 2 ^ 64
  pub csr : (i : ℕ) → cpu.csr i < 2 ^ 64

-- The same 32 registers, program counter and 4096 CSRs.
pub record SameState (a b : CpuState) : Type 0 where
  pub gpr : (i : ℕ) → i < 32 → a.gpr i ≡ b.gpr i
  pub pc : a.pc ≡ b.pc
  pub csr : (i : ℕ) → i < 4096 → a.csr i ≡ b.csr i

-- The eight bytes of a word.
eight_bytes :
    (w : ℕ)
    → w < 2 ^ 64
    → w % 256
        + 256
          * (w / 256 % 256
              + 256
                * (w / 256 ^ 2 % 256
                    + 256
                      * (w / 256 ^ 3 % 256
                          + 256
                            * (w / 256 ^ 4 % 256
                                + 256
                                  * (w / 256 ^ 5 % 256
                                      + 256 * (w / 256 ^ 6 % 256 + 256 * (w / 256 ^ 7 % 256)))))))
      ≡ w
eight_bytes w h = omega arith

image_byte :
    (cpu : CpuState) (i j k : ℕ)
    → j / 8 ≡ i
    → j % 8 ≡ k
    → image cpu j ≡ word_of cpu i / 256 ^ k % 256
unfolding image
image_byte cpu i j k e f = rw (e, f) refl

load_le-image :
    (b : ℕ → ℕ) (cpu : CpuState) (i : ℕ)
    → ((j : ℕ) → 8 * i ≤ j → j < 8 * i + 8 → b j ≡ image cpu j)
    → word_of cpu i < 2 ^ 64
    → load_le 8 b (8 * i) ≡ word_of cpu i
unfolding load_le
load_le-image b cpu i same h =
    let byte : (j k : ℕ) → j ≡ 8 * i + k → k < 8 → b j ≡ word_of cpu i / 256 ^ k % 256 = λ j k e lt.
      same j (omega arith) (omega arith) ∙ image_byte cpu i j k (omega arith) (omega arith) in
    let p = 8 * i in
    omega (
      arith,
      byte p 0 (omega arith) (omega arith),
      byte (p + 1) 1 (omega arith) (omega arith),
      byte (p + 1 + 1) 2 (omega arith) (omega arith),
      byte (p + 1 + 1 + 1) 3 (omega arith) (omega arith),
      byte (p + 1 + 1 + 1 + 1) 4 (omega arith) (omega arith),
      byte (p + 1 + 1 + 1 + 1 + 1) 5 (omega arith) (omega arith),
      byte (p + 1 + 1 + 1 + 1 + 1 + 1) 6 (omega arith) (omega arith),
      byte (p + 1 + 1 + 1 + 1 + 1 + 1 + 1) 7 (omega arith) (omega arith),
      eight_bytes (word_of cpu i) h,
    )

word_of-gpr : (cpu : CpuState) (i : ℕ) → i < 32 → word_of cpu i ≡ cpu.gpr i
unfolding word_of
word_of-gpr cpu i h = ground arith

word_of-csr : (cpu : CpuState) (i : ℕ) → word_of cpu (33 + i) ≡ cpu.csr i
unfolding word_of
word_of-csr cpu i = ground (arith, ap cpu.csr {x = 33 + i - 33} {y = i})

word_of-pc : (cpu : CpuState) → word_of cpu 32 ≡ cpu.pc
unfolding word_of
word_of-pc cpu = refl

pc_fits : (cpu : CpuState) → IsState cpu → word_of cpu 32 < 2 ^ 64
unfolding word_of
pc_fits cpu fits = fits.pc

pub of_image-SameState :
    (b : ℕ → ℕ) (cpu : CpuState)
    → IsState cpu
    → ((j : ℕ) → j < sizeof_cpu → b j ≡ image cpu j)
    → SameState (of_image b) cpu
unfolding of_image
of_image-SameState b cpu fits same = record {
  gpr = λ i lt.
      let w = word_of-gpr cpu i lt in
      load_le-image b cpu i (λ j lo hi. same j (omega arith)) (omega (arith, w, fits.gpr i)) ∙ w;
  pc = load_le-image b cpu 32 (λ j lo hi. same j (omega arith)) (pc_fits cpu fits) ∙ word_of-pc cpu;
  csr = λ i lt.
      let w = word_of-csr cpu i in
      load_le-image b cpu (33 + i) (λ j lo hi. same j (omega arith)) (omega (arith, w, fits.csr i))
      ∙ w;
}
