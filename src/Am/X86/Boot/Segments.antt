-- ===== src/Am/X86/Boot/Segments.antt =====
-- A segment of the program, as the boot loader leaves it in memory.
use riscv64_cpu.Base.{
  true, zero, suc, refl, ℕ, ◌%◌, ◌-◌, ◌<◌, ◌≤◌, ◌+◌, ◌^◌, ◌≡◌, ◌⊎◌, arith, bit_and, ◌*◌, ◌/◌, leb,
  ◌∙◌, ap, sym,
}
use riscv64_cpu.Base.Run.{done, ◌>>=◌}
use riscv64_cpu.Base.Bytes.{Mem, write_ne, write_self}
use riscv64_cpu.Base.Bits.{bit_and-high, bit_and_mask}
use riscv64_cpu.Am.Ports.{Ports}
use riscv64_cpu.Klib.Memory.{int_max}
use riscv64_cpu.Am.X86.Boot.{
  clear_bss, copy_from_disk, copy_sectors, load_program, first_sector, to_int,
}
use riscv64_cpu.Am.X86.Boot.Drive.{Drive}
use riscv64_cpu.Am.X86.Boot.Sectors.{Loaded, copy_sectors-Loaded}
use native.Mathlib.Decide.{ℕ_discrete}

pub clear_bss-outside :
    (left bss : ℕ) (m : Mem) (b : ℕ) → (b < bss) ⊎ (bss + left ≤ b) → clear_bss left bss m b ≡ m b
unfolding clear_bss
clear_bss-outside zero bss m b o = refl
clear_bss-outside (suc left) bss m b o =
    clear_bss-outside left (bss + 1) _ b (omega (arith, o)) ∙ write_ne m bss 0 b (omega (arith, o))

clear_bss-inside : (left bss : ℕ) (m : Mem) (i : ℕ) → i < left → clear_bss left bss m (bss + i) ≡ 0
unfolding clear_bss
clear_bss-inside zero bss m i h = absurd (omega (arith, h))
clear_bss-inside (suc left) bss m i h = elim (ℕ_discrete i 0) [
  | yes e ↦
      let x : bss + i ≡ bss = omega (arith, e) in
      rw x (clear_bss-outside left (bss + 1) _ bss (omega arith) ∙ write_self m bss 0)
  | no n ↦
      let x : bss + i ≡ bss + 1 + (i - 1) = omega (arith, n) in
      rw x (clear_bss-inside left (bss + 1) _ (i - 1) (omega (arith, n)))
]

-- The sectors that hold the bytes from `paddr` on, and the first byte that is read.
abbrev pub sectors : (paddr filesz : ℕ) → ℕ
sectors paddr filesz = (paddr % 512 + filesz + 511) / 512

abbrev pub aligned : ℕ → ℕ
aligned paddr = paddr - paddr % 512

aligned_lem : (a : ℕ) → a < 2 ^ 32 → bit_and a (2 ^ 32 - 512) ≡ aligned a
aligned_lem a h = bit_and-high 9 (2 ^ 23 - 1) a ∙ omega (arith, h, bit_and_mask 23 (a / 512))

sector_lem : (offset : ℕ) → offset ≤ int_max → first_sector (to_int offset) ≡ offset / 512 + 3
unfolding first_sector to_int
sector_lem offset h =
    let test : leb offset int_max ≡ true = ground (arith, h) in
    let s : (offset / 512 + 1024 / 512 + 1) % 2 ^ 32 ≡ offset / 512 + 3 = omega (arith, h) in
    rw test s

-- A segment in the file at `offset`, and where it goes in memory.
pub record IsSegment (filesz memsz paddr offset : ℕ) : Type 0 where
  pub size : filesz ≤ memsz
  pub room : paddr + memsz + 512 < 2 ^ 32
  pub small : offset + filesz ≤ int_max
  pub congruent : paddr % 512 ≡ offset % 512

module _ (p : Ports) (v : Drive p) (fuel n filesz memsz paddr offset : ℕ) (m : Mem) (d : p.D)
    (g : IsSegment filesz memsz paddr offset) (enough : sectors paddr filesz < fuel)
    (waits : v.latency < n) (idle : v.Idle d) where
  copy_from_disk-Loaded :
      (m1 : Mem) × (d1 : p.D) × (copy_from_disk p fuel n paddr filesz (to_int offset) (m, d)
        ≡ done (m1, d1))
      × Loaded p v (aligned paddr) (512 * sectors paddr filesz) ((offset / 512 + 3) * 512) m m1
      × v.Idle d1
  unfolding copy_from_disk
  copy_from_disk-Loaded =
      let end : (paddr + filesz) % 2 ^ 32 ≡ paddr + filesz = omega (arith, g.room, g.size) in
      let start = aligned_lem paddr (omega (arith, g.room)) in
      let (m1, d1, run, loaded, idle1) =
        copy_sectors-Loaded p v (sectors paddr filesz) fuel n (aligned paddr) (paddr + filesz)
          (offset / 512 + 3) m d enough waits (omega (arith, g.room, g.size)) (omega arith)
          (omega arith) (omega (arith, g.small)) idle in
      (
        m1,
        d1,
        ap
              (λ b.
                copy_sectors p fuel n b ((paddr + filesz) % 2 ^ 32) (first_sector (to_int offset))
                  (m, d))
              start
            ∙ ap
                (λ e. copy_sectors p fuel n (aligned paddr) e (first_sector (to_int offset)) (m, d))
                end
            ∙ ap (λ s. copy_sectors p fuel n (aligned paddr) (paddr + filesz) s (m, d))
                (sector_lem offset (omega (arith, g.small)))
            ∙ run,
        loaded,
        idle1,
      )

  -- The index of the loop that clears.
  rounds : (memsz + 2 ^ 32 - filesz) % 2 ^ 32 ≡ memsz - filesz
  rounds = omega (arith, g.size, g.room)

  -- If the drive is idle and there is fuel for its waits and for the sectors, load_program of a
  -- segment whose place in memory and in the file agree modulo 512 ends with the bytes of the file at
  -- the segment's address, zeros behind them, and no other byte changed outside of the sectors read.
  pub load_program_lem :
      (m' : Mem) × (d' : p.D) × (load_program p fuel n filesz memsz paddr offset (m, d)
        ≡ done (m', d'))
      × v.Idle d'
      × ((i : ℕ) → i < filesz → m' (paddr + i) ≡ v.content (1536 + offset + i))
      × ((i : ℕ) → filesz ≤ i → i < memsz → m' (paddr + i) ≡ 0)
      × ((b : ℕ)
          → (b < aligned paddr)
            ⊎ ((aligned paddr + 512 * sectors paddr filesz ≤ b) × (paddr + memsz ≤ b))
          → m' b ≡ m b)
  unfolding load_program
  load_program_lem =
      let (m1, d1, run, loaded, idle1) = copy_from_disk-Loaded in
      let m2 = clear_bss (memsz - filesz) (paddr + filesz) m1 in
      (
        m2,
        d1,
        ap
              (λ r. r >>= λ s.
                done (clear_bss ((memsz + 2 ^ 32 - filesz) % 2 ^ 32) (paddr + filesz) s.0, s.1))
              run
            ∙ ap (λ k. done (clear_bss k (paddr + filesz) m1, d1)) rounds,
        idle1,
        λ i h.
            let at_ : aligned paddr + (paddr % 512 + i) ≡ paddr + i = omega arith in
            let from : (offset / 512 + 3) * 512 + (paddr % 512 + i) ≡ 1536 + offset + i =
              omega (arith, g.congruent) in
            clear_bss-outside (memsz - filesz) (paddr + filesz) m1 (paddr + i) (omega (arith, h))
            ∙ ap m1 (sym at_)
            ∙ loaded.inside (paddr % 512 + i) (omega (arith, h))
            ∙ ap v.content from,
        λ i lo hi.
            let at_ : paddr + i ≡ paddr + filesz + (i - filesz) = omega (arith, lo) in
            ap m2 at_
            ∙ clear_bss-inside (memsz - filesz) (paddr + filesz) m1 (i - filesz)
                (omega (arith, lo, hi)),
        λ b o.
            clear_bss-outside (memsz - filesz) (paddr + filesz) m1 b (omega (arith, o, g.size))
            ∙ loaded.outside b (omega (arith, o)),
      )
