-- ===== src/Am/Tests.antt =====
-- The devices and the scheduler.
use riscv64_cpu.Base.{refl, ℕ, ◌≡◌}
use riscv64_cpu.Base.Run.{done, exit, fault, abort}
use riscv64_cpu.Am.Ioe.{lut, ioe_init, ioe_read, timer_rtc}
use riscv64_cpu.Am.Cte.{schedule, Pcbs, yield_main, pcb_0, pcb_1, event_error}

reads_rtc : ioe_read (ioe_init lut) 5 ≡ done (timer_rtc 0 0 0 0 0 1900)
unfolding ioe_read ioe_init
reads_rtc = refl

no_disk : ioe_read (ioe_init lut) 18 ≡ exit 1
unfolding ioe_read ioe_init
no_disk = refl

no_disk_yet : ioe_read lut 18 ≡ fault
unfolding ioe_read
no_disk_yet = refl

-- The two processes take turns, each where it was left.
abbrev turns : Pcbs
turns = record { boot = 0; cp_0 = 16; cp_1 = 32; current = pcb_0 }

takes_turns :
    schedule event_error turns 17 ≡ (32, record { boot = 0; cp_0 = 17; cp_1 = 32; current = pcb_1 })
unfolding schedule
takes_turns = refl

-- `kcontext` gives NULL, so the first `yield` fails the assertion of `__am_irq_handle`.
yield_fails : (c : ℕ) → yield_main c ≡ abort
unfolding yield_main
yield_fails c = refl
