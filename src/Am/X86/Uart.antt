-- ===== src/Am/X86/Uart.antt =====
-- x86/qemu/ioe.c: the serial port.
use riscv64_cpu.Am.Ports.{Ports}
use riscv64_cpu.Base.{ℕ, ◌+◌, if◌then◌else◌, ◌/◌, bit_and, ◌==◌}

abbrev pub com1 : ℕ
com1 = 0x3f8

module _ (p : Ports) where
  -- `uart_init`, with the results of its reads dropped.
  unfoldable pub uart_init : p.D → p.D
  uart_init d =
      let d1 = p.outb (com1 + 2) 0 d in
      let d2 = p.outb (com1 + 3) 0x80 d1 in
      let d3 = p.outb (com1 + 0) (115200 / 9600) d2 in
      let d4 = p.outb (com1 + 1) 0 d3 in
      let d5 = p.outb (com1 + 3) 0x03 d4 in
      let d6 = p.outb (com1 + 4) 0 d5 in
      let d7 = p.outb (com1 + 1) 0x01 d6 in
      let d8 = (p.inb (com1 + 2) d7).1 in (p.inb (com1 + 0) d8).1

  -- `uart_tx`
  unfoldable pub uart_tx : ℕ → p.D → p.D
  uart_tx c d = p.outb com1 c d

  -- `uart_rx`; -1 is 0xff as a `char`.
  unfoldable pub uart_rx : p.D → ℕ × p.D
  uart_rx d =
      let (status, d1) = p.inb (com1 + 5) d in
      let ready = p.inb com1 d1 in if bit_and status 1 == 0 then (0xff, d1) else ready
