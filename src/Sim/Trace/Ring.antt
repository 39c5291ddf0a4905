-- ===== src/Sim/Trace/Ring.antt =====
-- The ring of the latest instructions, `itrace_pool`, and its display.
use riscv64_cpu.Base.{
  ℕ, zero, suc, ◌+◌, ◌-◌, ◌%◌, List, [], ◌∷◌, Bool, true, false, ◌==◌, if◌then◌else◌,
}

pub record TraceEntry : Type 0 where
  pub pc : ℕ
  pub instr : ℕ

abbrev pub trace_entry : ℕ → ℕ → TraceEntry
trace_entry pc instr = record { pc = pc; instr = instr }

abbrev pub itrace_pool_size : ℕ
itrace_pool_size = 30

-- `itrace_pool`, `itrace_ptr` and `pool_full`.
pub record Ring : Type 0 where
  pub pool : ℕ → TraceEntry
  pub ptr : ℕ
  pub full : Bool

-- The statics before the first instruction.
abbrev pub empty_ring : Ring
empty_ring = record { pool = λ i. trace_entry 0 0; ptr = 0; full = false }

-- `instr_itrace`
unfoldable pub instr_itrace : ℕ → ℕ → Ring → Ring
instr_itrace pc instr r =
    let next = (r.ptr + 1) % itrace_pool_size in
    record {
      pool = λ i. if i == r.ptr then trace_entry pc instr else r.pool i;
      ptr = next;
      full = if next == 0 then true else r.full;
    }

-- A line of the display: whether it has the mark `>`, and the entry.
abbrev pub Shown : Type 0
Shown = Bool × TraceEntry

-- The loop of `instr_itrace_display`, with the rounds left and the index `i`.
unfoldable pub display_loop : Ring → ℕ → ℕ → List Shown
display_loop r zero i = []
display_loop r (suc left) i =
    let last_idx = (r.ptr + itrace_pool_size - 1) % itrace_pool_size in
    (i == last_idx, r.pool i) ∷ display_loop r left ((i + 1) % itrace_pool_size)

-- `instr_itrace_display`, the entries that it prints.
unfoldable pub instr_itrace_display : Ring → List Shown
unfolding display_loop
instr_itrace_display r =
    display_loop r (if r.full then itrace_pool_size else r.ptr) (if r.full then r.ptr else 0)
