-- ===== src/Am/X86/Devices.antt =====
-- x86/qemu/ioe.c: the table of the device registers, and the devices behind it.
use riscv64_cpu.Base.{
  [], ◌∷◌, true, false, none, some, Bool, List, ℕ, Option, if◌then◌else◌, ◌/◌, ltb, not, ◌==◌,
}
use riscv64_cpu.Base.Run.{Run, done, exit, fault, ◌>>=◌}
use riscv64_cpu.Base.Bytes.{Mem}
use riscv64_cpu.Am.Ports.{Ports}
use riscv64_cpu.Am.X86.Uart.{uart_init, uart_tx, uart_rx}
use riscv64_cpu.Am.X86.Clock.{Rtc, Timer, timer_init, timer_rtc, timer_uptime}
use riscv64_cpu.Am.X86.Disk.{blksz, disksz, disk_blkio}
use riscv64_cpu.Am.X86.Gpu.{Pixel, Screen, Draw, gpu_init, gpu_fbdraw, gpu_memcpy, vmem_size}
use riscv64_cpu.Am.X86.Render.{gpu_render}
use riscv64_cpu.Am.X86.Keyboard.{Keyboard, input_keybrd}

-- The handlers of `lut`.
pub data Handler : Type 0 where
  of_uart_config of_uart_tx of_uart_rx of_timer_config of_timer_rtc of_timer_uptime : Handler
  of_input_config of_input_keybrd of_gpu_config of_gpu_fbdraw of_gpu_status of_gpu_memcpy : Handler
  of_gpu_render of_audio_config of_disk_config of_disk_status of_disk_blkio : Handler
  of_net_config of_fail : Handler

-- What the caller's buffer holds, by the register of amdev.h that it is for.
pub data Buffer : Type 0 where
  presence : Bool → Buffer
  readiness : Bool → Buffer
  character : ℕ → Buffer
  clock_config : (present has_rtc : Bool) → Buffer
  date : Rtc → Buffer
  uptime : ℕ → Buffer
  key : Keyboard → Buffer
  screen_config : (present : Bool) (width height vmemsz : ℕ) → Buffer
  drawing : Draw → Buffer
  copying : (dest size : ℕ) → (ℕ → ℕ) → Buffer
  rendering : (root : ℕ) → Buffer
  disk_size : (present : Bool) (blksz blkcnt : ℕ) → Buffer
  blocks : (is_write : Bool) (blkno blkcnt : ℕ) → Mem → Buffer

-- `lut`, by the numbers of amdev.h, before `ioe_init`.
abbrev pub initial : List (ℕ × Handler)
initial =
    (1, of_uart_config)
    ∷ (2, of_uart_tx)
    ∷ (3, of_uart_rx)
    ∷ (4, of_timer_config)
    ∷ (5, of_timer_rtc)
    ∷ (6, of_timer_uptime)
    ∷ (7, of_input_config)
    ∷ (8, of_input_keybrd)
    ∷ (9, of_gpu_config)
    ∷ (11, of_gpu_fbdraw)
    ∷ (10, of_gpu_status)
    ∷ (12, of_gpu_memcpy)
    ∷ (13, of_gpu_render)
    ∷ (14, of_audio_config)
    ∷ (18, of_disk_config)
    ∷ (19, of_disk_status)
    ∷ (20, of_disk_blkio)
    ∷ (21, of_net_config)
    ∷ []

unfoldable pub place : ℕ → List (ℕ × Handler) → Option Handler
place reg [] = none
place reg ((r, h) ∷ rest) = let later = place reg rest in if reg == r then some h else later

abbrev pub present_or_fail : Option Handler → Handler
present_or_fail none = of_fail
present_or_fail (some h) = h

-- The loop of `ioe_init` over the table.
unfoldable pub filled : (ℕ → Option Handler) → ℕ → Option Handler
filled table reg = if ltb reg 128 then some (present_or_fail (table reg)) else none

module _ (p : Ports) where
  -- The devices: their hardware, the timer, and the GPU's memories.
  pub record Devices : Type 0 where
    pub ports : p.D
    pub timer : Timer
    pub screen : Screen
    pub vmem : Mem
    pub vbuf : Mem
    pub lut : ℕ → Option Handler

  -- `ioe_init` on the processor `cpu`; the boot loader left the size and the frame buffer.
  unfoldable pub ioe_init :
      ℕ → (cpu width height : ℕ) → (ℕ → Pixel) → (vmem vbuf : Mem) → p.D → Run Devices
  unfolding filled place uart_init timer_init gpu_init
  ioe_init n cpu width height fb vmem vbuf d =
      if not (cpu == 0)
      then exit 1
      else (timer_init p n (uart_init p d) >>= λ r. done (record {
        ports = r.1;
        timer = r.0;
        screen = gpu_init width height fb;
        vmem = vmem;
        vbuf = vbuf;
        lut = filled (λ reg. place reg initial);
      }))

  -- `gpu_config` and `disk_config`
  unfoldable pub gpu_config : Devices → Buffer
  gpu_config s = screen_config true s.screen.width s.screen.height vmem_size

  unfoldable pub disk_config : Buffer
  disk_config = disk_size true blksz (disksz / blksz)

  -- The handlers, on fuel for their waits; a buffer of another register is undefined.
  unfoldable pub call : ℕ → Handler → Buffer → Devices → Run (Buffer × Devices)
  unfolding uart_tx uart_rx timer_rtc timer_uptime input_keybrd gpu_fbdraw gpu_memcpy gpu_render
      disk_blkio gpu_config disk_config
  call n of_uart_config buf s = done (presence true, s)
  call n of_uart_tx (character c) s = done (character c, record s { ports = uart_tx p c s.ports })
  call n of_uart_rx buf s =
      let (c, d) = uart_rx p s.ports in done (character c, record s { ports = d })
  call n of_timer_config buf s = done (clock_config true true, s)
  call n of_timer_rtc buf s =
      timer_rtc p n s.ports >>= λ r. done (date r.0, record s { ports = r.1 })
  call n of_timer_uptime buf s =
      timer_uptime p s.timer s.ports >>= λ r. done (uptime r.0, record s { ports = r.1 })
  call n of_input_config buf s = done (presence true, s)
  call n of_input_keybrd buf s =
      let (k, d) = input_keybrd p s.ports in done (key k, record s { ports = d })
  call n of_gpu_config buf s = done (gpu_config s, s)
  call n of_gpu_fbdraw (drawing g) s = done (drawing g, record s { screen = gpu_fbdraw g s.screen })
  call n of_gpu_status buf s = done (readiness true, s)
  call n of_gpu_memcpy (copying dest size src) s =
      gpu_memcpy dest size src s.vmem >>= λ m. done (copying dest size src, record s { vmem = m })
  call n of_gpu_render (rendering root) s = gpu_render s.vmem n n root s.screen s.vbuf >>= λ c.
      done (rendering root, record s { screen = c.screen; vbuf = c.vbuf })
  call n of_audio_config buf s = done (presence false, s)
  call n of_disk_config buf s = done (disk_config, s)
  call n of_disk_status buf s = done (readiness true, s)
  call n of_disk_blkio (blocks w blkno blkcnt m) s =
      disk_blkio p n w blkcnt blkno 0 m s.ports >>= λ r.
      done (blocks w blkno blkcnt r.0, record s { ports = r.1 })
  call n of_net_config buf s = done (presence false, s)
  call n of_fail buf s = exit 1
  call n h buf s = fault

  -- `ioe_read` and `ioe_write`, which are alike. A place that is empty or outside the table faults.
  unfoldable pub ioe_read : ℕ → (reg : ℕ) → Buffer → Devices → Run (Buffer × Devices)
  unfolding call
  ioe_read n reg buf s = elim (s.lut reg) [ none ↦ fault | some h ↦ call n h buf s ]
