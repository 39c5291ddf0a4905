-- ===== src/Am/X86/Render.antt =====
-- x86/qemu/ioe.c: the rendering of canvases, which stand packed in `vmem`. `int` sums and products
-- past INT_MAX, and places outside `vmem`, `vbuf` and the frame buffer, are undefined.
use riscv64_cpu.Base.{
  none, some, zero, suc, ℕ, Option, if◌then◌else◌, ◌*◌, ◌+◌, leb, ltb, ◌%◌, ◌/◌, ◌==◌, ◌^◌, ◌-◌,
}
use riscv64_cpu.Base.Run.{Run, done, exit, fault, out_of_fuel, ◌>>=◌}
use riscv64_cpu.Base.Bytes.{Mem, write}
use riscv64_cpu.Am.X86.Gpu.{Pixel, Screen, set_pixel, vmem_size, gpu_null, vbuf_alloc}

-- What `render` changes: the frame buffer, `vbuf` and `vbuf_head`.
pub record Canvases : Type 0 where
  pub screen : Screen
  pub vbuf : Mem
  pub head : ℕ

-- A place for pixels: the frame buffer, or an array in `vbuf`, from its offset on.
pub data Target : Type 0 where
  to_fb : Target
  to_vbuf : ℕ → Target

-- Where pixels are taken from: a texture in `vmem`, or an array in `vbuf`.
pub data Local : Type 0 where
  in_vmem : ℕ → Local
  in_vbuf : ℕ → Local

-- A field of `struct gpu_canvas`, of 16 or of 32 bits.
unfoldable pub field16 : Mem → ℕ → ℕ
field16 m p = m p + 2 ^ 8 * m (p + 1)

unfoldable pub field32 : Mem → ℕ → ℕ
unfolding field16
field32 m p = field16 m p + 2 ^ 16 * field16 m (p + 2)

-- `to_host`: no place, or one in `vmem`.
unfoldable pub to_host : ℕ → Option ℕ
to_host p = if p == gpu_null then none else some p

abbrev pub canvas_size : ℕ
canvas_size = 26

-- An `int` result.
abbrev pub as_int32 : ℕ → Run ℕ
as_int32 n = if leb n 0x7fffffff then done n else fault

unfoldable pub load_pixel : Mem → ℕ → Run Pixel
load_pixel m p =
    if leb (p + 3) vmem_size then done (record { b = m p; g = m (p + 1); r = m (p + 2) }) else fault

-- `px_local[k]` and `px[k] = ...`
unfoldable pub take_pixel : Mem → Local → ℕ → Canvases → Run Pixel
unfolding load_pixel
take_pixel vmem (in_vmem p) k c = load_pixel vmem (p + 3 * k)
take_pixel vmem (in_vbuf p) k c = load_pixel c.vbuf (p + 3 * k)

unfoldable pub put_pixel : Target → ℕ → Pixel → Canvases → Run Canvases
unfolding set_pixel
put_pixel to_fb k px c =
    if ltb k (c.screen.width * c.screen.height)
    then done (record c { screen = record c.screen { fb = set_pixel c.screen.fb k px } })
    else fault
put_pixel (to_vbuf p) k px c =
    let q = p + 3 * k in
    if leb (q + 3) vmem_size
    then done (record c { vbuf = write (write (write c.vbuf q px.b) (q + 1) px.g) (q + 2) px.r })
    else fault

-- The place of a canvas on its parent, and the sizes of the texture and of the place.
pub record Placed : Type 0 where
  pub parent_w : ℕ
  pub w : ℕ
  pub h : ℕ
  pub x1 : ℕ
  pub y1 : ℕ
  pub w1 : ℕ
  pub h1 : ℕ

module _ (vmem : Mem) where
  -- The body of the two loops.
  unfoldable pub draw_pixel : Placed → Target → Local → (i j : ℕ) → Canvases → Run Canvases
  unfolding take_pixel put_pixel
  draw_pixel g px px_local i j c = do
    jh ← as_int32 (j * g.h)
    iw ← as_int32 (i * g.w)
    from ← as_int32 (g.w * (jh / g.h1) + iw / g.w1)
    at_ ← as_int32 (g.parent_w * (g.y1 + j) + (g.x1 + i))
    p ← take_pixel vmem px_local from c
    put_pixel px at_ p c

  unfoldable pub draw_column : Placed → Target → Local → (left i j : ℕ) → Canvases → Run Canvases
  unfolding draw_pixel
  draw_column g px px_local zero i j c = done c
  draw_column g px px_local (suc left) i j c =
      draw_pixel g px px_local i j c >>= draw_column g px px_local left i (j + 1)

  unfoldable pub draw_columns : Placed → Target → Local → (left i : ℕ) → Canvases → Run Canvases
  unfolding draw_column
  draw_columns g px px_local zero i c = done c
  draw_columns g px px_local (suc left) i c =
      draw_column g px px_local g.h1 i 0 c >>= draw_columns g px px_local left (i + 1)

  -- `vbuf_alloc` of an array of pixels; a size past INT_MAX is negative as an `int`.
  unfoldable pub alloc_pixels : (w h : ℕ) → Canvases → Run (ℕ × Canvases)
  unfolding vbuf_alloc
  alloc_pixels w h c = do
    n ← as_int32 (w * h)
    let size = n * 3 % 2 ^ 32
    let back = 2 ^ 32 - size
    if leb size 0x7fffffff
        then (vbuf_alloc size c.head c.vbuf >>= λ r.
            done (r.0, record { screen = c.screen; vbuf = r.2; head = r.1 }))
        else if leb back c.head
        then done (c.head, record c { head = c.head - back })
        else fault

  -- The loop over the children, from `ch` on, with what is done to each.
  unfoldable pub render_children :
      (ℕ → Canvases → Run Canvases) → ℕ → Option ℕ → Canvases → Run Canvases
  unfolding to_host field32
  render_children draw n none c = done c
  render_children draw zero (some ch) c = out_of_fuel
  render_children draw (suc n) (some ch) c =
      draw ch c >>= render_children draw n (to_host (field32 vmem (ch + 14)))

  abbrev placed_at : (parent_w w h cv : ℕ) → Placed
  placed_at parent_w w h cv = record {
    parent_w = parent_w;
    w = w;
    h = h;
    x1 = field16 vmem (cv + 6);
    y1 = field16 vmem (cv + 8);
    w1 = field16 vmem (cv + 10);
    h1 = field16 vmem (cv + 12);
  }

  -- The last loops of `render`, from `px_local` to `px`.
  unfoldable pub draw_local : Placed → Target → Local → Canvases → Run Canvases
  unfolding draw_columns
  draw_local g px px_local c = draw_columns g px px_local g.w1 0 c

  -- `render` of the canvas at `cv`, on fuel for the depth, and fuel `n` for each row of siblings.
  unfoldable pub render : ℕ → ℕ → (cv parent_w : ℕ) → Target → Canvases → Run Canvases
  unfolding draw_local render_children alloc_pixels to_host field16 field32
  render zero n cv parent_w px c = out_of_fuel
  render (suc fuel) n cv parent_w px c =
      let type = field16 vmem cv in
      let w = field16 vmem (cv + 2) in
      let h = field16 vmem (cv + 4) in
      let tw = field16 vmem (cv + 18) in
      let th = field16 vmem (cv + 20) in
      let pixels = field32 vmem (cv + 22) in
      let subtree = alloc_pixels w h c >>= λ r.
      render_children (λ ch. render fuel n ch w (to_vbuf r.0)) n (to_host (field32 vmem (cv + 18)))
        r.1
      >>= draw_local (placed_at parent_w w h cv) px (in_vbuf r.0) in
      if ltb vmem_size (cv + canvas_size)
      then fault
      else if type == 1
      then draw_local (placed_at parent_w tw th cv) px (in_vmem pixels) c
      else if type == 2
      then subtree
      else exit 1

  -- `gpu_render`; a NULL root is undefined.
  unfoldable pub gpu_render : ℕ → ℕ → (root : ℕ) → Screen → Mem → Run Canvases
  unfolding render to_host
  gpu_render fuel n root screen vbuf =
      render fuel n root screen.width to_fb (record { screen = screen; vbuf = vbuf; head = 0 })
