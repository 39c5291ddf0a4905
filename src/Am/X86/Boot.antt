-- ===== src/Am/X86/Boot.antt =====
-- x86/qemu/boot/main.c: the boot loader, which reads the program in ELF from the disk. The fields of
-- the headers of <elf.h> are a parameter.
pub mod Drive
pub mod Sectors
pub mod Segments
mod Tests
use riscv64_cpu.Base.{
  zero, suc, ℕ, Bool, bit_and, if◌then◌else◌, ◌+◌, ◌/◌, leb, ltb, ◌==◌, ◌^◌, bit_or, ◌-◌, ◌%◌,
}
use riscv64_cpu.Base.Run.{Run, done, out_of_fuel, ◌>>=◌}
use riscv64_cpu.Base.Bytes.{Mem, write, store_le}
use riscv64_cpu.Base.Words.{u8, u32}
use riscv64_cpu.Am.Ports.{Ports}
use riscv64_cpu.Klib.Memory.{ℤ, pos, negsuc, int_max}

abbrev pub sectsize : ℕ
sectsize = 512

abbrev pub argsize : ℕ
argsize = 1024

abbrev pub mainarg_addr : ℕ
mainarg_addr = 0x10000

-- A field of the header of a file, and of a program header, read in memory at its address.
pub record Elf : Type 0 where
  pub entry : Mem → ℕ → ℕ
  pub phoff : Mem → ℕ → ℕ
  pub phnum : Mem → ℕ → ℕ
  pub phdr_size : ℕ
  pub filesz : Mem → ℕ → ℕ
  pub memsz : Mem → ℕ → ℕ
  pub paddr : Mem → ℕ → ℕ
  pub offset : Mem → ℕ → ℕ

-- `sect` of copy_from_disk: the division rounds towards 0, the sum is a `uint32_t`.
unfoldable pub first_sector : ℤ → ℕ
first_sector (pos n) = u32 (n / sectsize + argsize / sectsize + 1)
first_sector (negsuc n) = u32 (2 ^ 32 + argsize / sectsize + 1 - (n + 1) / sectsize)

-- A `uint32_t` as an `int`.
unfoldable pub to_int : ℕ → ℤ
to_int n = if leb n int_max then pos n else negsuc (2 ^ 32 - 1 - n)

-- The loop of load_program, with the rounds left.
unfoldable pub clear_bss : (left bss : ℕ) → Mem → Mem
clear_bss zero bss m = m
clear_bss (suc left) bss m = clear_bss left (bss + 1) (write m bss 0)

module _ (p : Ports) where
  -- `wait_disk`
  unfoldable pub wait_disk : ℕ → p.D → Run p.D
  wait_disk zero d = out_of_fuel
  wait_disk (suc fuel) d =
      let (status, d1) = p.inb 0x1f7 d in
      let rest = wait_disk fuel d1 in if bit_and status 0xc0 == 0x40 then done d1 else rest

  -- The loop of read_disk, with the words left.
  unfoldable pub read_words : (left buf : ℕ) → Mem × p.D → Mem × p.D
  read_words zero buf s = s
  read_words (suc left) buf (m, d) =
      let (v, d1) = p.inl 0x1f0 d in read_words left (buf + 4) (store_le 4 m buf v, d1)

  -- The command of read_disk.
  unfoldable pub read_command : (sect : ℕ) → p.D → p.D
  read_command sect d =
      let d1 = p.outb 0x1f2 1 d in
      let d2 = p.outb 0x1f3 (u8 sect) d1 in
      let d3 = p.outb 0x1f4 (u8 (sect / 2 ^ 8)) d2 in
      let d4 = p.outb 0x1f5 (u8 (sect / 2 ^ 16)) d3 in
      let d5 = p.outb 0x1f6 (u8 (bit_or (sect / 2 ^ 24) 0xe0)) d4 in p.outb 0x1f7 0x20 d5

  -- `read_disk`, with fuel for each wait.
  unfoldable pub read_disk : ℕ → (buf sect : ℕ) → Mem × p.D → Run (Mem × p.D)
  unfolding wait_disk read_words read_command
  read_disk n buf sect (m, d) = do
    d1 ← wait_disk n d
    d2 ← wait_disk n (read_command sect d1)
    done (read_words (sectsize / 4) buf (m, d2))

  -- The loop of copy_from_disk, on fuel.
  unfoldable pub copy_sectors : ℕ → ℕ → (cur ed sect : ℕ) → Mem × p.D → Run (Mem × p.D)
  unfolding read_disk
  copy_sectors zero n cur ed sect s = out_of_fuel
  copy_sectors (suc fuel) n cur ed sect s =
      let rest =
        read_disk n cur sect s >>= copy_sectors fuel n (u32 (cur + sectsize)) ed (u32 (sect + 1)) in
      if ltb cur ed then rest else done s

  -- `copy_from_disk`
  unfoldable pub copy_from_disk : ℕ → ℕ → (buf nbytes : ℕ) → ℤ → Mem × p.D → Run (Mem × p.D)
  unfolding copy_sectors first_sector
  copy_from_disk fuel n buf nbytes disk_offset s =
      copy_sectors fuel n (bit_and buf (2 ^ 32 - sectsize)) (u32 (buf + nbytes))
        (first_sector disk_offset) s

  -- `load_program`; the index wraps, so the rounds are counted at 32 bits.
  unfoldable pub load_program :
      ℕ → ℕ → (filesz memsz paddr offset : ℕ) → Mem × p.D → Run (Mem × p.D)
  unfolding copy_from_disk clear_bss to_int
  load_program fuel n filesz memsz paddr offset s =
      copy_from_disk fuel n paddr filesz (to_int offset) s >>= λ r.
      done (clear_bss ((memsz + 2 ^ 32 - filesz) % 2 ^ 32) (paddr + filesz) r.0, r.1)

  -- The loop of load_elf32 and load_elf64, on fuel, over the program headers from `ph` on; the
  -- number of headers is read in each round.
  unfoldable pub load_segments : ℕ → ℕ → ℕ → Elf → (elf i ph : ℕ) → Mem × p.D → Run (Mem × p.D)
  unfolding load_program
  load_segments zero fuel n e elf i ph s = out_of_fuel
  load_segments (suc left) fuel n e elf i ph s =
      let rest =
        load_program fuel n (u32 (e.filesz s.0 ph)) (u32 (e.memsz s.0 ph)) (u32 (e.paddr s.0 ph))
          (u32 (e.offset s.0 ph)) s
        >>= load_segments left fuel n e elf (i + 1) (ph + e.phdr_size) in
      if ltb i (e.phnum s.0 elf) then rest else done s

  -- `load_elf32` and `load_elf64`, which differ in the types of the headers; `left` is the fuel for
  -- the headers.
  unfoldable pub load_elf : ℕ → ℕ → ℕ → Elf → (elf : ℕ) → Mem × p.D → Run (Mem × p.D)
  unfolding load_segments
  load_elf left fuel n e elf s = load_segments left fuel n e elf 0 (elf + e.phoff s.0 elf) s

  abbrev pub elf_addr : ℕ
  elf_addr = 0x8000

  -- `load_kernel`: the address that it jumps to, and the state. `machine` reads `e_machine`, and
  -- `is_ap` is what the boot record says.
  unfoldable pub load_kernel :
      ℕ
      → ℕ
      → ℕ
      → Elf
      → Elf
      → (machine : Mem → ℕ → ℕ) → (em_x86_64 : ℕ) → (is_ap : Bool) → Mem × p.D
      → Run (ℕ × Mem × p.D)
  unfolding copy_from_disk load_elf
  load_kernel left fuel n elf32 elf64 machine em_x86_64 is_ap s =
      let is_64 : Mem → Bool = λ m. machine m elf_addr == em_x86_64 in
      let boot : Run (Mem × p.D) = do
        s1 ← copy_from_disk fuel n mainarg_addr 1024 (negsuc 1023) s
        s2 ← copy_from_disk fuel n elf_addr 4096 (pos 0) s1
        load_elf left fuel n (if is_64 s2.0 then elf64 else elf32) elf_addr s2
      in (if is_ap then done s else boot) >>= λ r.
      done (u32 ((if is_64 r.0 then elf64 else elf32).entry r.0 elf_addr), r.0, r.1)
