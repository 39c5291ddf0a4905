-- ===== src/Am/X86/Boot/Drive.antt =====
-- What is documented of an ATA drive: it is idle, busy with a sector, or gives the words of one.
use riscv64_cpu.Base.{
  false, zero, suc, true, refl, all_below, ℕ, bit_and, bit_or, ◌<◌, ◌≡◌, arith, ◌+◌, ◌==◌, ◌^◌, ◌*◌,
  ◌/◌, ==_iff, ◌%◌, ◌≢◌, all_below-true, ◌∙◌, ◌-◌, sym,
}
use riscv64_cpu.Base.Run.{done}
use riscv64_cpu.Base.Bytes.{Mem, IsBytes, load_le, store_le, store_le_outside, write, write_self}
use riscv64_cpu.Am.Ports.{Ports}
use riscv64_cpu.Am.X86.Boot.{wait_disk, read_command}
use native.Mathlib.Decide.{ℕ_discrete}
use mathlib.Core.Path.{subst}

-- `content` is the disk by its bytes. After a command the drive is busy for `latency` readings of
-- its status.
pub record Drive (p : Ports) : Type 1 where
  pub content : ℕ → ℕ
  pub latency : ℕ
  pub Idle : p.D → Type 0
  pub Busy : ℕ → ℕ → p.D → Type 0
  pub Reading : ℕ → ℕ → p.D → Type 0
  pub bytes : IsBytes content
  pub idle : (d : p.D) → Idle d → (bit_and (p.inb 0x1f7 d).0 0xc0 ≡ 0x40) × Idle (p.inb 0x1f7 d).1
  pub issue :
      (d : p.D) (b0 b1 b2 b3 : ℕ)
      → b0 < 256
      → b1 < 256
      → b2 < 256
      → b3 < 16
      → Idle d
      → Busy latency (b0 + 2 ^ 8 * b1 + 2 ^ 16 * b2 + 2 ^ 24 * b3) (
          p.outb 0x1f7 0x20 (
            p.outb 0x1f6
              (0xe0 + b3)
              (p.outb 0x1f5 b2 (p.outb 0x1f4 b1 (p.outb 0x1f3 b0 (p.outb 0x1f2 1 d))))))
  pub busy :
      (k s : ℕ) (d : p.D)
      → Busy (suc k) s d
      → (bit_and (p.inb 0x1f7 d).0 0xc0 ≢ 0x40) × Busy k s (p.inb 0x1f7 d).1
  pub ready :
      (s : ℕ) (d : p.D)
      → Busy 0 s d
      → (bit_and (p.inb 0x1f7 d).0 0xc0 ≡ 0x40) × Reading s 0 (p.inb 0x1f7 d).1
  pub words :
      (s k : ℕ) (d : p.D)
      → k < 128
      → Reading s k d
      → ((p.inl 0x1f0 d).0 ≡ load_le 4 content (s * 512 + 4 * k))
        × Reading s (k + 1) (p.inl 0x1f0 d).1
  pub finished : (s : ℕ) (d : p.D) → Reading s 128 d → Idle d

-- A word that is stored stands in memory by its bytes.
pub store_le-load_le :
    (n : ℕ) (m c : Mem) (a x i : ℕ)
    → IsBytes c
    → i < n
    → store_le n m a (load_le n c x) (a + i) ≡ c (x + i)
unfolding store_le load_le
store_le-load_le zero m c a x i h l = absurd (omega arith)
store_le-load_le (suc n) m c a x i h l =
    let w = load_le n c (x + 1) in
    let low : (c x + 256 * w) % 256 ≡ c x = omega (arith, h x) in
    let high : (c x + 256 * w) / 256 ≡ w = omega (arith, h x) in
    elim (ℕ_discrete i 0) [
      | yes e ↦
          let z : a + i ≡ a = omega (arith, e) in
          let y : x + i ≡ x = omega (arith, e) in
          rw (low, high, z, y)
            (store_le_outside n (write m a (c x)) (a + 1) w a (omega arith) ∙ write_self m a (c x))
      | no ne ↦
          let j = i - 1 in
          let z : a + i ≡ a + 1 + j = omega (arith, ne) in
          let y : x + i ≡ x + 1 + j = omega (arith, ne) in
          rw (low, high, z, y)
            (store_le-load_le n (write m a (c x)) c (a + 1) (x + 1) j h (omega (arith, ne)))
    ]

-- The bits of the drive and of the address mode.
drive_bits : all_below 16 (λ x. bit_or x 0xe0 == 0xe0 + x) ≡ true
drive_bits = refl

module _ (p : Ports) (v : Drive p) where
  pub wait_idle :
      (n : ℕ) (d : p.D) → v.Idle d → (d' : p.D) × (wait_disk p (suc n) d ≡ done d') × v.Idle d'
  unfolding wait_disk
  wait_idle n d h =
      let (e, i) = v.idle d h in
      let test : (bit_and (p.inb 0x1f7 d).0 0xc0 == 0x40) ≡ true = ground (arith, e) in
      ((p.inb 0x1f7 d).1, rw test refl, i)

  pub wait_busy :
      (k s n : ℕ) (d : p.D)
      → k < n
      → v.Busy k s d
      → (d' : p.D) × (wait_disk p n d ≡ done d') × v.Reading s 0 d'
  unfolding wait_disk
  wait_busy k s zero d l h = absurd (omega arith)
  wait_busy zero s (suc n) d l h =
      let (e, i) = v.ready s d h in
      let test : (bit_and (p.inb 0x1f7 d).0 0xc0 == 0x40) ≡ true = ground (arith, e) in
      ((p.inb 0x1f7 d).1, rw test refl, i)
  wait_busy (suc k) s (suc n) d l h =
      let (e, i) = v.busy k s d h in
      let test : (bit_and (p.inb 0x1f7 d).0 0xc0 == 0x40) ≡ false = ground (arith, e) in
      let (d', run, r) = wait_busy k s n (p.inb 0x1f7 d).1 (omega arith) i in (d', rw test run, r)

  pub read_command-Busy :
      (sect : ℕ) (d : p.D)
      → sect < 2 ^ 28
      → v.Idle d
      → v.Busy v.latency sect (read_command p sect d)
  unfolding read_command
  read_command-Busy sect d l h =
      let top : sect / 2 ^ 24 < 16 = omega arith in
      let or_ : bit_or (sect / 2 ^ 24) 0xe0 ≡ 0xe0 + sect / 2 ^ 24 =
        (==_iff _ _).0
          (all_below-true 16 (λ x. bit_or x 0xe0 == 0xe0 + x) drive_bits (sect / 2 ^ 24) top) in
      let mode : bit_or (sect / 2 ^ 24) 0xe0 % 2 ^ 8 ≡ 0xe0 + sect / 2 ^ 24 =
        omega (arith, or_, top) in
      let whole : sect % 2 ^ 8
            + 2 ^ 8 * (sect / 2 ^ 8 % 2 ^ 8)
            + 2 ^ 16 * (sect / 2 ^ 16 % 2 ^ 8)
            + 2 ^ 24 * (sect / 2 ^ 24)
          ≡ sect =
        omega arith in
      let b =
        v.issue d (sect % 2 ^ 8) (sect / 2 ^ 8 % 2 ^ 8) (sect / 2 ^ 16 % 2 ^ 8) (sect / 2 ^ 24)
          (omega arith) (omega arith) (omega arith) top h in
      let d4 =
        p.outb 0x1f5 (sect / 2 ^ 16 % 2 ^ 8)
          (p.outb 0x1f4 (sect / 2 ^ 8 % 2 ^ 8) (p.outb 0x1f3 (sect % 2 ^ 8) (p.outb 0x1f2 1 d))) in
      subst (λ s. v.Busy v.latency s (read_command p sect d)) whole
        (subst
          (λ x.
            v.Busy v.latency
              (sect % 2 ^ 8
                + 2 ^ 8 * (sect / 2 ^ 8 % 2 ^ 8)
                + 2 ^ 16 * (sect / 2 ^ 16 % 2 ^ 8)
                + 2 ^ 24 * (sect / 2 ^ 24))
              (p.outb 0x1f7 0x20 (p.outb 0x1f6 x d4)))
          (sym mode) b)
