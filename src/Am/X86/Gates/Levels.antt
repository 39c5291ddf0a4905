-- ===== src/Am/X86/Gates/Levels.antt =====
-- The gates that cte_init leaves.
use riscv64_cpu.Base.{
  zero, suc, true, false, [], ◌∷◌, some, refl, Bool, List, ℕ, ◌≡◌, arith, if◌then◌else◌, leb, ◌&&◌,
  ◌<◌, ◌==◌, ◌≤◌, ap, ◌+◌, ◌||◌, ◌∙◌, all_below, all_below-true,
}
use riscv64_cpu.Am.X86.Gates.{
  Entry, Gate, gate, am_irqall, am_irq, irqs, fill_idt, set_entries, cte_init,
}
use riscv64_cpu.Base.Run.{done}
use native.Mathlib.Decide.{ℕ_discrete}

-- The gate of `n` after the entries, when it was `g`.
abbrev found : List (ℕ × ℕ) → ℕ → Gate → Gate
found [] n g = g
found (e ∷ es) n g = found es n (if n == e.0 then gate (am_irq e.0) e.1 else g)

set_entries-found :
    (es : List (ℕ × ℕ)) (idt : ℕ → Gate) (n : ℕ) → set_entries es idt n ≡ found es n (idt n)
unfolding set_entries
set_entries-found [] idt n = refl
set_entries-found (e ∷ es) idt n = set_entries-found es _ n

fill_idt-outside : (left i : ℕ) (idt : ℕ → Gate) (n : ℕ) → n < i → fill_idt left i idt n ≡ idt n
unfolding fill_idt
fill_idt-outside zero i idt n h = refl
fill_idt-outside (suc left) i idt n h =
    let e : (n == i) ≡ false = ground arith in
    fill_idt-outside left (i + 1) _ n (omega arith) ∙ rw e refl

fill_idt-inside :
    (left i : ℕ) (idt : ℕ → Gate) (n : ℕ)
    → i ≤ n
    → n < i + left
    → fill_idt left i idt n ≡ gate am_irqall 0
unfolding fill_idt
fill_idt-inside zero i idt n lo hi = absurd (omega arith)
fill_idt-inside (suc left) i idt n lo hi = elim (ℕ_discrete n i) [
  | yes e ↦
      let t : (n == i) ≡ true = ground arith in
      fill_idt-outside left (i + 1) _ n (omega arith) ∙ rw t refl
  | no e ↦ fill_idt-inside left (i + 1) _ n (omega arith) (omega arith)
]

-- Which interrupts have an entry of their own, and which of them a process may raise.
abbrev pub is_own : ℕ → Bool
is_own n = leb n 16 || (n == 19) || (leb 31 n && leb n 47) || (n == 128) || (n == 129)

abbrev pub level : ℕ → ℕ
level n = if (n == 128) || (n == 129) then 3 else 0

abbrev pub expected : ℕ → Gate
expected n = gate (if is_own n then am_irq n else am_irqall) (level n)

-- A gate by numbers.
abbrev code : Entry → ℕ
code am_irqall = 0
code (am_irq n) = suc n

code-injective : (a b : Entry) → code a ≡ code b → a ≡ b
code-injective am_irqall am_irqall h = refl
code-injective am_irqall (am_irq n) h = absurd (omega (arith, h))
code-injective (am_irq n) am_irqall h = absurd (omega (arith, h))
code-injective (am_irq n) (am_irq m) h = let e : n ≡ m = omega (arith, h) in ap am_irq e

abbrev same_gate : Gate → Gate → Bool
same_gate g h = (g.cs == h.cs) && (code g.entry == code h.entry) && (g.dpl == h.dpl)

same_gate-true : (g h : Gate) → same_gate g h ≡ true → g ≡ h
same_gate-true g h e =
    let c : g.cs ≡ h.cs = ground (arith, e) in
    let n : code g.entry ≡ code h.entry = ground (arith, e) in
    let d : g.dpl ≡ h.dpl = ground (arith, e) in
    let i = code-injective g.entry h.entry n in
    ap (λ x. record { cs = x; entry = g.entry; dpl = g.dpl }) c
    ∙ ap (λ x. record { cs = h.cs; entry = x; dpl = g.dpl }) i
    ∙ ap (λ x. record { cs = h.cs; entry = h.entry; dpl = x }) d

all_found : all_below 256 (λ n. same_gate (found irqs n (gate am_irqall 0)) (expected n)) ≡ true
all_found = refl

-- On processor 0, cte_init with a handler leaves it and a table in which the gates of 0 to 16, 19,
-- 31 to 47, 128 and 129 lead to their own entries and all others to the common one, and only 128
-- and 129 can be raised by a process.
pub cte_init_lem :
    {H : Type 0} (handler : H) (idt : ℕ → Gate)
    → (table : ℕ → Gate) × (cte_init 0 (some handler) idt ≡ done (table, some handler))
      × ((n : ℕ) → n < 256 → table n ≡ expected n)
unfolding cte_init
cte_init_lem handler idt = (
  set_entries irqs (fill_idt 256 0 idt),
  refl,
  λ n h.
      set_entries-found irqs (fill_idt 256 0 idt) n
      ∙ ap (found irqs n) (fill_idt-inside 256 0 idt n (omega arith) h)
      ∙ same_gate-true (found irqs n (gate am_irqall 0)) (expected n) (
          all_below-true 256 (λ k. same_gate (found irqs k (gate am_irqall 0)) (expected k))
            all_found n h),
)
