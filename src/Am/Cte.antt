-- ===== src/Am/Cte.antt =====
-- cte.c, and the scheduler of software-test/csr-tests/yield-os. A pointer to a context is a number,
-- NULL is 0; the saving of the registers is assembly code.
use riscv64_cpu.Base.{Option, none, some, ℕ, if◌then◌else◌, ◌==◌}
use riscv64_cpu.Base.Run.{Run, done, abort}

-- `event` of an Event; the handler of traps knows no other.
pub data Event : Type 0 where
  event_error : Event

-- `user_handler`, over the state that it keeps.
abbrev pub UserHandler {ℓ} : Type ℓ → Type ℓ
UserHandler S = Event → S → ℕ → ℕ × S

-- The end of `__am_irq_handle` when there is a handler.
abbrev pub checked {ℓ} : {S : Type ℓ} → ℕ × S → Run (ℕ × S)
checked r = if r.0 == 0 then abort else done r

unfoldable pub am_irq_handle {ℓ} : {S : Type ℓ} → Option (UserHandler S) → S → ℕ → Run (ℕ × S)
am_irq_handle none s c = done (c, s)
am_irq_handle (some handler) s c = checked (handler event_error s c)

-- `kcontext` is not implemented.
abbrev pub kcontext : ℕ
kcontext = 0

pub data Pcb : Type 0 where
  pcb_boot pcb_0 pcb_1 : Pcb

-- The `cp` of each, and `current`.
pub record Pcbs : Type 0 where
  pub boot : ℕ
  pub cp_0 : ℕ
  pub cp_1 : ℕ
  pub current : Pcb

unfoldable pub save : Pcb → ℕ → Pcbs → Pcbs
save pcb_boot c s = record s { boot = c }
save pcb_0 c s = record s { cp_0 = c }
save pcb_1 c s = record s { cp_1 = c }

unfoldable pub switch_to : Pcb → Pcbs → ℕ × Pcbs
switch_to pcb_boot s = (s.cp_0, record s { current = pcb_0 })
switch_to pcb_0 s = (s.cp_1, record s { current = pcb_1 })
switch_to pcb_1 s = (s.cp_0, record s { current = pcb_0 })

unfoldable pub schedule : UserHandler Pcbs
unfolding save switch_to
schedule ev s prev = switch_to s.current (save s.current prev s)

-- `main` of yield-os.c up to the return from its first `yield`, which traps with the context `c`.
unfoldable pub yield_main : ℕ → Run (ℕ × Pcbs)
unfolding schedule am_irq_handle
yield_main c =
    am_irq_handle (some schedule)
      (record { boot = 0; cp_0 = kcontext; cp_1 = kcontext; current = pcb_boot }) c
