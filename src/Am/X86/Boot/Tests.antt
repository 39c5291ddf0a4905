-- ===== src/Am/X86/Boot/Tests.antt =====
-- The boot loader with a drive of its own making.
use riscv64_cpu.Base.{
  true, false, zero, suc, inl, inr, refl, arith, ℕ, ◌≡◌, ap, if◌then◌else◌, ◌%◌, ◌*◌, ◌+◌, ◌<◌,
  bit_and, ◌==◌, ◌^◌, ◌≤◌, ◌⊎◌, sym, ◌-◌, ◌∙◌,
}
use riscv64_cpu.Base.Run.{done}
use riscv64_cpu.Base.Bytes.{Mem, load_le}
use riscv64_cpu.Am.Ports.{Ports}
use riscv64_cpu.Am.X86.Boot.{load_program}
use riscv64_cpu.Am.X86.Boot.Drive.{Drive}
use riscv64_cpu.Am.X86.Boot.Segments.{IsSegment, load_program_lem, aligned, sectors}
use native.Mathlib.Decide.{ℕ_discrete}

data DriveState : Type 0 where
  waiting : DriveState
  working : ℕ → DriveState
  giving : ℕ → DriveState

record Registers : Type 0 where
  pub b0 : ℕ
  pub b1 : ℕ
  pub b2 : ℕ
  pub b3 : ℕ
  pub phase : DriveState

abbrev disk_byte : ℕ → ℕ
disk_byte x = x % 251

abbrev sector : Registers → ℕ
sector d = d.b0 + 2 ^ 8 * d.b1 + 2 ^ 16 * d.b2 + 2 ^ 24 * (d.b3 - 0xe0)

abbrev status : DriveState → ℕ × DriveState
status waiting = (0x40, waiting)
status (working zero) = (0x40, giving 0)
status (working (suc k)) = (0x80, working k)
status (giving k) = (0x40, giving k)

abbrev give : ℕ → DriveState → ℕ × DriveState
give s (giving k) =
    (load_le 4 disk_byte (s * 512 + 4 * k), if k == 127 then waiting else giving (k + 1))
give s q = (0, q)

abbrev put : ℕ → ℕ → Registers → Registers
put port x d =
    if port == 0x1f3
    then record d { b0 = x }
    else if port == 0x1f4
    then record d { b1 = x }
    else if port == 0x1f5
    then record d { b2 = x }
    else if port == 0x1f6
    then record d { b3 = x }
    else if port == 0x1f7
    then record d { phase = working 1 }
    else d

abbrev ata : Ports
ata = record {
  D = Registers;
  inb = λ port d. ((status d.phase).0, record d { phase = (status d.phase).1 });
  inl = λ port d. ((give (sector d) d.phase).0, record d { phase = (give (sector d) d.phase).1 });
  outb = put;
  outl = put;
  rdtsc = λ d. (0, d);
}

abbrev Gives : ℕ → ℕ → Registers → Type 0
Gives s k d =
    ((k < 128) × (d.phase ≡ giving k) × (sector d ≡ s)) ⊎ ((k ≡ 128) × (d.phase ≡ waiting))

Gives-next :
    (s k : ℕ) (d : Registers)
    → k < 128
    → d.phase ≡ giving k
    → sector d ≡ s
    → ((give (sector d) d.phase).0 ≡ load_le 4 disk_byte (s * 512 + 4 * k))
      × Gives s (k + 1) (record d { phase = (give (sector d) d.phase).1 })
Gives-next s k d h e f = elim (ℕ_discrete k 127) [
  | yes last ↦
      let test : (k == 127) ≡ true = ground (arith, last) in
      (rw (e, f) refl, inr (omega (arith, last), ap (λ q. (give (sector d) q).1) e ∙ rw test refl))
  | no more ↦
      let test : (k == 127) ≡ false = ground (arith, more) in
      (
        rw (e, f) refl,
        inl (omega (arith, h, more), ap (λ q. (give (sector d) q).1) e ∙ rw test refl, f),
      )
]

abbrev ata_drive : Drive ata
ata_drive = record {
  content = disk_byte;
  latency = 1;
  Idle = λ d. d.phase ≡ waiting;
  Busy = λ k s d. (d.phase ≡ working k) × (sector d ≡ s);
  Reading = Gives;
  bytes = λ x. omega arith;
  idle = λ d h. (ap (λ q. bit_and (status q).0 0xc0) h, ap (λ q. (status q).1) h);
  issue = λ d b0 b1 b2 b3 h0 h1 h2 h3 h. (refl, omega arith);
  busy = λ k s d h. (
    λ z.
        let e : 0x80 ≡ 0x40 = sym (ap (λ q. bit_and (status q).0 0xc0) h.0) ∙ z in
        absurd (omega (arith, e)),
    (ap (λ q. (status q).1) h.0, h.1),
  );
  ready = λ s d h.
      (ap (λ q. bit_and (status q).0 0xc0) h.0, inl (omega arith, ap (λ q. (status q).1) h.0, h.1));
  words = λ s k d h r. elim r [
    | inl (l, e, f) ↦ Gives-next s k d h e f
    | inr (e, f) ↦ absurd (omega (arith, h, e))
  ];
  finished = λ s d r. elim r [ inl (l, e, f) ↦ absurd (omega (arith, l)) | inr (e, f) ↦ f ];
}

abbrev at_rest : Registers
at_rest = record { b0 = 0; b1 = 0; b2 = 0; b3 = 0; phase = waiting }

abbrev ones : Mem
ones b = 1

fits : IsSegment 600 700 0x100020 4128
fits = record { size = omega arith; room = omega arith; small = omega arith; congruent = refl }

load_program_lem_example :
    (m' : Mem) × (d' : Registers) × (load_program ata 3 2 600 700 0x100020 4128 (ones, at_rest)
      ≡ done (m', d'))
    × (d'.phase ≡ waiting)
    × ((i : ℕ) → i < 600 → m' (0x100020 + i) ≡ disk_byte (1536 + 4128 + i))
    × ((i : ℕ) → 600 ≤ i → i < 700 → m' (0x100020 + i) ≡ 0)
    × ((b : ℕ)
        → (b < aligned 0x100020)
          ⊎ ((aligned 0x100020 + 512 * sectors 0x100020 600 ≤ b) × (0x100020 + 700 ≤ b))
        → m' b ≡ ones b)
load_program_lem_example =
    load_program_lem ata ata_drive 3 2 600 700 0x100020 4128 ones at_rest fits (omega arith)
      (omega arith) refl
