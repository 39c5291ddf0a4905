-- ===== src/Am/X86/Gpu.antt =====
-- x86/qemu/ioe.c: the frame buffer, with coordinates and sizes that are not negative, and the
-- memory of the GPU. The rendering of canvases is not modelled.
pub mod Rectangle
use riscv64_cpu.Base.{zero, suc, ℕ, if◌then◌else◌, ◌*◌, ◌+◌, ◌/◌, leb, ltb, ◌==◌, ◌^◌, ◌-◌}
use riscv64_cpu.Base.Run.{Run, done, fault, exit}
use riscv64_cpu.Base.Bytes.{Mem, write}
use riscv64_cpu.Base.Words.{u8}

-- `struct pixel`
pub record Pixel : Type 0 where
  pub b : ℕ
  pub g : ℕ
  pub r : ℕ

-- `R`, `G` and `B`
unfoldable pub to_pixel : ℕ → Pixel
to_pixel p = record { b = u8 p; g = u8 (p / 2 ^ 8); r = u8 (p / 2 ^ 16) }

-- `display` and `fb`: the frame buffer by its pixels.
pub record Screen : Type 0 where
  pub width : ℕ
  pub height : ℕ
  pub fb : ℕ → Pixel

-- `gpu_init`, from the information that the boot loader left at 0x4000.
unfoldable pub gpu_init : (width height : ℕ) → (ℕ → Pixel) → Screen
gpu_init width height fb = record { width = width; height = height; fb = fb }

unfoldable pub set_pixel : (ℕ → Pixel) → ℕ → Pixel → ℕ → Pixel
set_pixel fb k px l = if l == k then px else fb l

-- The inner loop of `gpu_fbdraw`, with the pixels left.
unfoldable pub draw_row : ℕ → ℕ → ℕ → (ℕ → ℕ) → (ℕ → Pixel) → ℕ → Pixel
unfolding set_pixel to_pixel
draw_row zero dst src pixels fb = fb
draw_row (suc left) dst src pixels fb =
    draw_row left (dst + 1) (src + 1) pixels (set_pixel fb dst (to_pixel (pixels src)))

-- What is drawn: AM_GPU_FBDRAW_T.
pub record Draw : Type 0 where
  pub x : ℕ
  pub y : ℕ
  pub w : ℕ
  pub h : ℕ
  pub pixels : ℕ → ℕ

-- `len`
abbrev pub row_length : Screen → Draw → ℕ
row_length s d = if leb s.width (d.x + d.w) then s.width - d.x else d.w

-- The outer loop, with the rows left; `pixels` is advanced by `w` for each row.
unfoldable pub draw_rows : ℕ → ℕ → ℕ → Draw → Screen → (ℕ → Pixel) → ℕ → Pixel
unfolding draw_row
draw_rows zero j src d s fb = fb
draw_rows (suc left) j src d s fb = draw_rows left (j + 1) (src + d.w) d s (
    if ltb (d.y + j) s.height
    then draw_row (row_length s d) (d.x + (j + d.y) * s.width) src d.pixels fb
    else fb)

-- `gpu_fbdraw`
unfoldable pub gpu_fbdraw : Draw → Screen → Screen
unfolding draw_rows
gpu_fbdraw d s = record s { fb = draw_rows d.h 0 0 d s s.fb }

-- `vmem`, and its size.
abbrev pub vmem_size : ℕ
vmem_size = 512 * 2 ^ 10

abbrev pub gpu_null : ℕ
gpu_null = 0xffffffff

unfoldable pub copy_in : ℕ → ℕ → ℕ → (ℕ → ℕ) → Mem → Mem
copy_in zero i dst src vmem = vmem
copy_in (suc left) i dst src vmem = copy_in left (i + 1) dst src (write vmem (dst + i) (src i))

-- `gpu_memcpy`; a copy that is not within `vmem` is undefined, at NULL too.
unfoldable pub gpu_memcpy : (dest size : ℕ) → (ℕ → ℕ) → Mem → Run Mem
unfolding copy_in
gpu_memcpy dest size src vmem =
    if size == 0
    then done vmem
    else if dest == gpu_null
    then fault
    else if leb (dest + size) vmem_size
    then done (copy_in size 0 dest src vmem)
    else fault

-- `vbuf_alloc`: the place, the next free place, and the zeros.
unfoldable pub zero_bytes : ℕ → ℕ → ℕ → Mem → Mem
zero_bytes zero i ret vbuf = vbuf
zero_bytes (suc left) i ret vbuf = zero_bytes left (i + 1) ret (write vbuf (ret + i) 0)

unfoldable pub vbuf_alloc : ℕ → ℕ → Mem → Run (ℕ × ℕ × Mem)
unfolding zero_bytes
vbuf_alloc size head vbuf =
    if ltb vmem_size (head + size)
    then exit 1
    else done (head, head + size, zero_bytes size 0 head vbuf)
