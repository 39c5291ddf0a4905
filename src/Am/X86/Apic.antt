-- ===== src/Am/X86/Apic.antt =====
-- x86/qemu/ioe.c: the interrupt controllers, behind registers at addresses in memory.
use riscv64_cpu.Base.{
  zero, suc, ℕ, bit_and, bit_or, if◌then◌else◌, ◌+◌, ◌/◌, leb, ◌*◌, ◌==◌, ◌^◌, ◌%◌,
}
use riscv64_cpu.Base.Run.{Run, done, out_of_fuel, ◌>>=◌}
use riscv64_cpu.Base.Words.{u32}

-- The hardware behind the addresses, and the port instructions that start a processor uses.
pub record Bus : Type 1 where
  pub D : Type 0
  pub load : ℕ → D → ℕ × D
  pub save : ℕ → ℕ → D → D
  pub save16 : ℕ → ℕ → D → D
  pub outb : ℕ → ℕ → D → D

-- Registers of the local APIC, by their offsets.
abbrev pub apic_id : ℕ
apic_id = 0x20

abbrev pub apic_ver : ℕ
apic_ver = 0x30

abbrev pub tpr : ℕ
tpr = 0x80

abbrev pub eoi : ℕ
eoi = 0xb0

abbrev pub svr : ℕ
svr = 0xf0

abbrev pub esr : ℕ
esr = 0x280

abbrev pub icrlo : ℕ
icrlo = 0x300

abbrev pub icrhi : ℕ
icrhi = 0x310

abbrev pub lvt_timer : ℕ
lvt_timer = 0x320

abbrev pub pcint : ℕ
pcint = 0x340

abbrev pub lint0 : ℕ
lint0 = 0x350

abbrev pub lint1 : ℕ
lint1 = 0x360

abbrev pub lvt_error : ℕ
lvt_error = 0x370

abbrev pub ticr : ℕ
ticr = 0x380

abbrev pub tdcr : ℕ
tdcr = 0x3e0

abbrev pub masked : ℕ
masked = 0x10000

abbrev pub t_irq0 : ℕ
t_irq0 = 32

abbrev pub ioapic_addr : ℕ
ioapic_addr = 0xfec00000

module _ (b : Bus) where
  -- `lapicw`; `lapic` is the address in `__am_lapic`.
  unfoldable pub lapicw : (lapic index value : ℕ) → b.D → b.D
  lapicw lapic index value d = (b.load (lapic + apic_id) (b.save (lapic + index) value d)).1

  -- The wait for the delivery.
  unfoldable pub wait_delivery : ℕ → (lapic : ℕ) → b.D → Run b.D
  wait_delivery zero lapic d = out_of_fuel
  wait_delivery (suc fuel) lapic d =
      let (v, d1) = b.load (lapic + icrlo) d in
      let rest = wait_delivery fuel lapic d1 in if bit_and v 0x1000 == 0 then done d1 else rest

  -- `__am_percpu_initlapic`
  unfoldable pub am_percpu_initlapic : ℕ → (lapic : ℕ) → b.D → Run b.D
  unfolding lapicw wait_delivery
  am_percpu_initlapic n lapic d =
      let d1 = lapicw lapic svr (bit_or 0x100 (t_irq0 + 31)) d in
      let d2 = lapicw lapic tdcr 0xb d1 in
      let d3 = lapicw lapic lvt_timer (bit_or 0x20000 (t_irq0 + 0)) d2 in
      let d4 = lapicw lapic ticr 10000000 d3 in
      let d5 = lapicw lapic lint0 masked d4 in
      let d6 = lapicw lapic lint1 masked d5 in
      let (v, d7) = b.load (lapic + apic_ver) d6 in
      let counted = lapicw lapic pcint masked d7 in
      let d8 = if leb 4 (bit_and (v / 2 ^ 16) 0xff) then counted else d7 in
      let d9 = lapicw lapic lvt_error (t_irq0 + 19) d8 in
      let d10 = lapicw lapic esr 0 (lapicw lapic esr 0 d9) in
      let d11 = lapicw lapic eoi 0 d10 in
      let d12 = lapicw lapic icrhi 0 d11 in
      let d13 = lapicw lapic icrlo (bit_or (bit_or 0x80000 0x500) 0x8000) d12 in
      wait_delivery n lapic d13 >>= λ d14. done (lapicw lapic tpr 0 d14)

  -- `__am_lapic_eoi`; there may be no local APIC yet.
  unfoldable pub am_lapic_eoi : (lapic : ℕ) → b.D → b.D
  unfolding lapicw
  am_lapic_eoi lapic d = if lapic == 0 then d else lapicw lapic eoi 0 d

  -- The loop of `__am_lapic_bootap`.
  unfoldable pub startups : (left lapic apicid addr : ℕ) → b.D → b.D
  unfolding lapicw
  startups zero lapic apicid addr d = d
  startups (suc left) lapic apicid addr d = startups left lapic apicid addr (
      lapicw lapic icrlo (bit_or 0x600 (addr / 2 ^ 12))
        (lapicw lapic icrhi (u32 (apicid * 2 ^ 24)) d))

  -- `__am_lapic_bootap`
  unfoldable pub am_lapic_bootap : (lapic apicid addr : ℕ) → b.D → b.D
  unfolding lapicw startups
  am_lapic_bootap lapic apicid addr d =
      let d1 = b.outb 0x71 0x0a (b.outb 0x70 0xf d) in
      let d2 = b.save16 0x469 (addr / 2 ^ 4 % 2 ^ 16) (b.save16 0x467 0 d1) in
      let d3 = lapicw lapic icrhi (u32 (apicid * 2 ^ 24)) d2 in
      let d4 = lapicw lapic icrlo (bit_or (bit_or 0x500 0x8000) 0x4000) d3 in
      let d5 = lapicw lapic icrlo (bit_or 0x500 0x8000) d4 in startups 2 lapic apicid addr d5

  -- `ioapicread` and `ioapicwrite`: the number of the register, then its value.
  unfoldable pub ioapicread : (reg : ℕ) → b.D → ℕ × b.D
  ioapicread reg d = b.load (ioapic_addr + 16) (b.save ioapic_addr reg d)

  unfoldable pub ioapicwrite : (reg value : ℕ) → b.D → b.D
  ioapicwrite reg value d = b.save (ioapic_addr + 16) value (b.save ioapic_addr reg d)

  -- The loop of `__am_ioapic_init`, with the rounds left.
  unfoldable pub disable_irqs : (left i : ℕ) → b.D → b.D
  unfolding ioapicwrite
  disable_irqs zero i d = d
  disable_irqs (suc left) i d = disable_irqs left (i + 1) (
      ioapicwrite (0x10 + 2 * i + 1) 0 (ioapicwrite (0x10 + 2 * i) (bit_or 0x10000 (t_irq0 + i)) d))

  -- `__am_ioapic_init`
  unfoldable pub am_ioapic_init : b.D → b.D
  unfolding ioapicread disable_irqs
  am_ioapic_init d =
      let (v, d1) = ioapicread 0x01 d in disable_irqs (bit_and (v / 2 ^ 16) 0xff + 1) 0 d1

  -- `__am_ioapic_enable`
  unfoldable pub am_ioapic_enable : (irq cpunum : ℕ) → b.D → b.D
  unfolding ioapicwrite
  am_ioapic_enable irq cpunum d =
      ioapicwrite (0x10 + 2 * irq + 1) (u32 (cpunum * 2 ^ 24))
        (ioapicwrite (0x10 + 2 * irq) (t_irq0 + irq) d)
