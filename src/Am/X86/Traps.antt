-- ===== src/Am/X86/Traps.antt =====
-- x86/qemu/cte.c in its configuration of 32 bits: what a trap does. The entries and the return from a trap are assembly code; messages are left out.
use riscv64_cpu.Base.{
  none, some, Option, ℕ, Bool, bit_or, if◌then◌else◌, leb, ◌+◌, ◌-◌, ◌&&◌, ◌==◌, ◌^◌, ltb, ◌%◌,
  ◌||◌,
}
use riscv64_cpu.Base.Run.{Run, done, exit, fault}
use riscv64_cpu.Am.X86.Gates.{ksel, dpl_user, seg_kcode, seg_kdata}
use riscv64_cpu.Am.X86.Paging.{has, mmap_none, mmap_write}
use riscv64_cpu.Am.X86.Spaces.{Context, usel, seg_udata, sizeof_context, fl_if}
use riscv64_cpu.Am.X86.Apic.{Bus, am_lapic_eoi, am_ioapic_enable, t_irq0}

-- `event`
pub data EventKind : Type 0 where
  event_null event_yield event_syscall event_pagefault event_error event_irq_timer : EventKind
  event_irq_iodev : EventKind

pub record Event : Type 0 where
  pub event : EventKind
  pub cause : ℕ
  pub ref : ℕ

-- `struct trap_frame`
pub record TrapFrame : Type 0 where
  pub saved_context : Context
  pub irq : ℕ
  pub errcode : ℕ
  pub eip : ℕ
  pub cs : ℕ
  pub eflags : ℕ
  pub esp : ℕ

abbrev pub mmap_read : ℕ
mmap_read = 1

abbrev pub plain_event : EventKind → Event
plain_event k = record { event = k; cause = 0; ref = 0 }

-- The case of a page fault, with the address in CR2.
unfoldable pub page_fault : (errcode cr2 : ℕ) → Event
page_fault errcode cr2 =
    let present = if has errcode 1 then mmap_none else 0 in
    record {
      event = event_pagefault;
      cause = bit_or present (if has errcode 2 then mmap_write else mmap_read);
      ref = cr2;
    }

-- The `switch` of `__am_irq_handle`.
unfoldable pub event_of : (irq errcode cr2 : ℕ) → Event
unfolding page_fault
event_of irq errcode cr2 =
    if irq == t_irq0 + 0
    then plain_event event_irq_timer
    else if (irq == t_irq0 + 1) || (irq == t_irq0 + 4)
    then plain_event event_irq_iodev
    else if irq == 0x80
    then plain_event event_syscall
    else if irq == 0x81
    then plain_event event_yield
    else if (irq == 0) || (irq == 6) || (irq == 7) || (irq == 8)
    then plain_event event_error
    else if (irq == 10) || (irq == 11) || (irq == 12) || (irq == 13)
    then plain_event event_error
    else if irq == 14
    then page_fault errcode cr2
    else record { event = event_error; cause = errcode; ref = 0 }

-- The context that the handler is given; `tf_end` is the address behind the frame.
unfoldable pub saved : TrapFrame → (tf_end cr3 esp0 : ℕ) → Context
saved tf tf_end cr3 esp0 = record tf.saved_context {
  eip = tf.eip;
  cs = tf.cs;
  eflags = tf.eflags;
  esp0 = esp0;
  ss3 = usel seg_udata;
  esp = if has tf.cs dpl_user then tf.esp else (tf_end + 2 ^ 32 - 8) % 2 ^ 32;
  cr3 = cr3;
}

module _ (b : Bus) where
  -- A processor: control registers, its task state, the bus, and what the handler keeps.
  pub record Processor (S : Type 0) : Type 0 where
    pub cr2 : ℕ
    pub cr3 : ℕ
    pub ss0 : ℕ
    pub esp0 : ℕ
    pub bus : b.D
    pub kept : S

  -- `user_handler`: the context to go on with, or NULL.
  abbrev pub UserHandler : Type 0 → Type 0
  UserHandler S = Event → Context → S → Option Context × S

  -- The end of `__am_irq_handle`, for the context to return to.
  unfoldable pub return_to :
      {S : Type 0} → Option Context → Processor S → Run (Context × Processor S)
  return_to none p = exit 1
  return_to (some c) p =
      if c.cr3 == 0
      then done (c, p)
      else done (c, record p { cr3 = c.cr3; ss0 = ksel seg_kdata; esp0 = c.esp0 })

  -- `__am_irq_handle`, with `__am_lapic` at `lapic`; without a handler its call is undefined.
  unfoldable pub am_irq_handle :
      {S : Type 0}
      → (lapic : ℕ) → Option (UserHandler S)
      → (tf_end : ℕ) → TrapFrame
      → Processor S
      → Run (Context × Processor S)
  unfolding am_lapic_eoi event_of saved return_to
  am_irq_handle lapic none tf_end tf p = fault
  am_irq_handle lapic (some handler) tf_end tf p =
      let is_irq = leb t_irq0 tf.irq && ltb tf.irq (t_irq0 + 32) in
      let bus = if is_irq then am_lapic_eoi b lapic p.bus else p.bus in
      let (ret, kept) =
        handler (event_of tf.irq tf.errcode p.cr2) (saved tf tf_end p.cr3 p.esp0) p.kept in
      return_to ret (record p { bus = bus; kept = kept })

  -- `__am_percpu_initirq`: keyboard and COM1 to processor 0, and the table is loaded.
  unfoldable pub am_percpu_initirq : b.D → b.D
  unfolding am_ioapic_enable
  am_percpu_initirq d = am_ioapic_enable b 4 0 (am_ioapic_enable b 1 0 d)

-- `ienabled`, of the flags.
unfoldable pub ienabled : (efl : ℕ) → Bool
ienabled efl = has efl fl_if

-- `kcontext`: the context, and its address; `start` is `__am_kcontext_start`.
unfoldable pub kcontext : (end start entry_point arg : ℕ) → ℕ × Context
kcontext end start entry_point arg = (
  end - sizeof_context,
  record {
    cr3 = 0;
    ds = ksel seg_kdata;
    eax = arg;
    ebx = entry_point;
    ecx = 0;
    edx = 0;
    esp0 = 0;
    esi = 0;
    edi = 0;
    ebp = 0;
    eip = start;
    cs = ksel seg_kcode;
    eflags = fl_if;
    esp = end;
    ss3 = 0;
  },
)
