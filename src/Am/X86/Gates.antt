-- ===== src/Am/X86/Gates.antt =====
-- x86/qemu/cte.c in its configuration of 32 bits: the table of the interrupts.
pub mod Levels
use riscv64_cpu.Base.{
  zero, suc, true, false, [], ◌∷◌, none, some, List, ℕ, Option, bit_or, if◌then◌else◌, ◌+◌, not,
  ◌*◌, ◌==◌, ◌^◌,
}
use riscv64_cpu.Base.Run.{Run, done, exit}

abbrev pub dpl_kern : ℕ
dpl_kern = 0

abbrev pub dpl_user : ℕ
dpl_user = 3

abbrev pub ksel : ℕ → ℕ
ksel seg = bit_or (seg * 2 ^ 3) dpl_kern

abbrev pub seg_kcode : ℕ
seg_kcode = 1

abbrev pub seg_kdata : ℕ
seg_kdata = 2

abbrev pub nr_irq : ℕ
nr_irq = 256

-- `__am_irqall`, and `__am_irq` with a number.
pub data Entry : Type 0 where
  am_irqall : Entry
  am_irq : ℕ → Entry

-- GATE32, with the type STS_TG.
pub record Gate : Type 0 where
  pub cs : ℕ
  pub entry : Entry
  pub dpl : ℕ

abbrev pub gate : Entry → ℕ → Gate
gate e dpl = record { cs = ksel seg_kcode; entry = e; dpl = dpl }

-- `IRQS`: the numbers and the privilege levels.
abbrev pub irqs : List (ℕ × ℕ)
irqs =
    (0, dpl_kern)
    ∷ (1, dpl_kern)
    ∷ (2, dpl_kern)
    ∷ (3, dpl_kern)
    ∷ (4, dpl_kern)
    ∷ (5, dpl_kern)
    ∷ (6, dpl_kern)
    ∷ (7, dpl_kern)
    ∷ (8, dpl_kern)
    ∷ (9, dpl_kern)
    ∷ (10, dpl_kern)
    ∷ (11, dpl_kern)
    ∷ (12, dpl_kern)
    ∷ (13, dpl_kern)
    ∷ (14, dpl_kern)
    ∷ (15, dpl_kern)
    ∷ (16, dpl_kern)
    ∷ (19, dpl_kern)
    ∷ (31, dpl_kern)
    ∷ (32, dpl_kern)
    ∷ (33, dpl_kern)
    ∷ (34, dpl_kern)
    ∷ (35, dpl_kern)
    ∷ (36, dpl_kern)
    ∷ (37, dpl_kern)
    ∷ (38, dpl_kern)
    ∷ (39, dpl_kern)
    ∷ (40, dpl_kern)
    ∷ (41, dpl_kern)
    ∷ (42, dpl_kern)
    ∷ (43, dpl_kern)
    ∷ (44, dpl_kern)
    ∷ (45, dpl_kern)
    ∷ (46, dpl_kern)
    ∷ (47, dpl_kern)
    ∷ (128, dpl_user)
    ∷ (129, dpl_user)
    ∷ []

abbrev pub set_gate : (ℕ → Gate) → ℕ → Gate → ℕ → Gate
set_gate idt i g j = if j == i then g else idt j

-- The loop of cte_init, and its entries.
unfoldable pub fill_idt : ℕ → ℕ → (ℕ → Gate) → ℕ → Gate
fill_idt zero i idt = idt
fill_idt (suc left) i idt = fill_idt left (i + 1) (set_gate idt i (gate am_irqall dpl_kern))

unfoldable pub set_entries : List (ℕ × ℕ) → (ℕ → Gate) → ℕ → Gate
set_entries [] idt = idt
set_entries (e ∷ es) idt = set_entries es (set_gate idt e.0 (gate (am_irq e.0) e.1))

-- `cte_init` on the processor `cpu`: the table of gates, and the handler.
unfoldable pub cte_init :
    {H : Type 0} → (cpu : ℕ) → Option H → (ℕ → Gate) → Run ((ℕ → Gate) × Option H)
unfolding fill_idt set_entries
cte_init cpu none idt = exit 1
cte_init cpu (some handler) idt =
    if not (cpu == 0) then exit 1 else done (set_entries irqs (fill_idt nr_irq 0 idt), some handler)
