-- ===== src/Am/X86/Gpu/Rectangle.antt =====
-- What gpu_fbdraw draws.
use riscv64_cpu.Base.{ℕ, ◌<◌, ◌≤◌, ◌+◌, ◌⊎◌, ◌*◌}
use riscv64_cpu.Am.X86.Gpu.{Pixel, Screen, Draw, draw_row, row_length}

-- The pixels at a column and a row, and the rectangle.
abbrev pub Inside : Draw → ℕ → ℕ → Type 0
Inside d column row = (d.x ≤ column) × (column < d.x + d.w) × (d.y ≤ row) × (row < d.y + d.h)

abbrev pub Outside : Draw → ℕ → ℕ → Type 0
Outside d column row = (row < d.y) ⊎ (d.y + d.h ≤ row) ⊎ (column < d.x) ⊎ (d.x + d.w ≤ column)

module _ (d : Draw) (s : Screen) (column row : ℕ) (on_row : column < s.width) where
  abbrev pixel_at : ℕ
  pixel_at = column + row * s.width

  abbrev row_drawn : ℕ → ℕ → (ℕ → Pixel) → ℕ → Pixel
  row_drawn j src fb = draw_row (row_length s d) (d.x + (j + d.y) * s.width) src d.pixels fb
