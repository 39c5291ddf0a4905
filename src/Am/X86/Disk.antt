-- ===== src/Am/X86/Disk.antt =====
-- x86/qemu/ioe.c: the ATA disk, with words of 32 bits.
use riscv64_cpu.Base.{
  zero, suc, Bool, ℕ, if◌then◌else◌, ◌%◌, ◌*◌, ◌+◌, bit_and, ◌/◌, ◌^◌, bit_or, ◌==◌,
}
use riscv64_cpu.Base.Run.{Run, done, out_of_fuel, ◌>>=◌}
use riscv64_cpu.Base.Bytes.{Mem, write}
use riscv64_cpu.Am.Ports.{Ports}

abbrev pub blksz : ℕ
blksz = 512

abbrev pub disksz : ℕ
disksz = 64 * 2 ^ 20

module _ (p : Ports) where
  -- `wait_disk`
  unfoldable pub wait_disk : ℕ → p.D → Run p.D
  wait_disk zero d = out_of_fuel
  wait_disk (suc fuel) d =
      let (status, d1) = p.inb 0x1f7 d in
      let rest = wait_disk fuel d1 in if bit_and status 0xc0 == 0x40 then done d1 else rest

  -- The loops over the words of a block; `buf` is the buffer by its words, from `ptr` on.
  unfoldable pub write_words : ℕ → ℕ → Mem → p.D → p.D
  write_words zero ptr buf d = d
  write_words (suc left) ptr buf d = write_words left (ptr + 1) buf (p.outl 0x1f0 (buf ptr) d)

  unfoldable pub read_words : ℕ → ℕ → Mem → p.D → Mem × p.D
  read_words zero ptr buf d = (buf, d)
  read_words (suc left) ptr buf d =
      let (v, d1) = p.inl 0x1f0 d in read_words left (ptr + 1) (write buf ptr v) d1

  -- The command: one block, its number, and what to do.
  unfoldable pub command : Bool → ℕ → p.D → p.D
  command is_write blkno d =
      let d1 = p.outb 0x1f2 1 d in
      let d2 = p.outb 0x1f3 (blkno % 2 ^ 8) d1 in
      let d3 = p.outb 0x1f4 (blkno / 2 ^ 8 % 2 ^ 8) d2 in
      let d4 = p.outb 0x1f5 (blkno / 2 ^ 16 % 2 ^ 8) d3 in
      let d5 = p.outb 0x1f6 (bit_or (blkno / 2 ^ 24) 0xe0 % 2 ^ 8) d4 in
      p.outb 0x1f7 (if is_write then 0x30 else 0x20) d5

  -- `disk_blkio`, with `remain` blocks left and fuel for each wait.
  unfoldable pub disk_blkio : ℕ → Bool → ℕ → ℕ → ℕ → Mem → p.D → Run (Mem × p.D)
  unfolding wait_disk write_words read_words command
  disk_blkio n is_write zero blkno ptr buf d = done (buf, d)
  disk_blkio n is_write (suc remain) blkno ptr buf d = do
    d1 ← wait_disk n d
    d2 ← wait_disk n (command is_write blkno d1)
    let (buf', d3) =
        if is_write
        then (buf, write_words (blksz / 4) ptr buf d2)
        else read_words (blksz / 4) ptr buf d2
    disk_blkio n is_write remain ((blkno + 1) % 2 ^ 32) (ptr + blksz / 4) buf' d3
