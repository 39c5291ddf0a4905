-- ===== src/Sim/Trace/Recent.antt =====
-- The ring holds the latest instructions, and shows them oldest first.
use mathlib.Core.Path.{ap₂}
use native.Mathlib.Decide.{dec_lt}
use mathlib.Core.List.{append-nil, append_assoc}
use riscv64_cpu.Base.{
  ℕ, zero, suc, ◌+◌, ◌%◌, ◌≤◌, ◌<◌, ◌≡◌, refl, ap, arith, List, [], ◌∷◌, ◌++◌, length, get_or,
  length-append, true, false, leb, drop, ◌-◌,
}
use riscv64_cpu.Sim.Trace.Ring.{
  TraceEntry, Ring, trace_entry, instr_itrace, Shown, display_loop, empty_ring,
  instr_itrace_display,
}

-- The ring after instructions, the first of the list the oldest.
unfoldable pub trace_all : Ring → List TraceEntry → Ring
trace_all r [] = r
trace_all r (e ∷ es) = trace_all (instr_itrace e.pc e.instr r) es

-- The last entry has the mark, no other.
unfoldable pub mark : List TraceEntry → List Shown
mark [] = []
mark (e ∷ []) = (true, e) ∷ []
mark (e ∷ f ∷ es) = (false, e) ∷ mark (f ∷ es)

abbrev no_entry : TraceEntry
no_entry = trace_entry 0 0

-- After the instructions `es` the ring holds the latest 30 of them, each at its number's remainder.
record Holds (es : List TraceEntry) (r : Ring) : Type 0 where
  ptr : r.ptr ≡ length es % 30
  full : r.full ≡ leb 30 (length es)
  pool : (k : ℕ) → k < length es → length es ≤ k + 30 → r.pool (k % 30) ≡ get_or es k no_entry

get_or-append_left :
    (es fs : List TraceEntry) (k : ℕ)
    → k < length es
    → get_or (es ++ fs) k no_entry ≡ get_or es k no_entry
get_or-append_left [] fs k h = absurd (omega arith)
get_or-append_left (e ∷ es) fs zero h = refl
get_or-append_left (e ∷ es) fs (suc k) h = get_or-append_left es fs k (omega arith)

get_or-append_last :
    (es : List TraceEntry) (e : TraceEntry) → get_or (es ++ e ∷ []) (length es) no_entry ≡ e
get_or-append_last [] e = refl
get_or-append_last (f ∷ es) e = get_or-append_last es e

Holds-step :
    (es : List TraceEntry) (e : TraceEntry) (r : Ring)
    → Holds es r
    → Holds (es ++ e ∷ []) (instr_itrace e.pc e.instr r)
unfolding instr_itrace
Holds-step es e r h = record {
  ptr = ground (arith, h.ptr, length-append es (e ∷ []));
  full = ground (arith, h.ptr, h.full, length-append es (e ∷ []));
  pool = λ k lt ge. ground (
    arith,
    h.ptr,
    h.pool k,
    length-append es (e ∷ []),
    get_or-append_last es e,
    get_or-append_left es (e ∷ []) k,
    ap (λ i. get_or (es ++ e ∷ []) i no_entry) {x = k} {y = length es},
  );
}

trace_all-Holds :
    (es fs : List TraceEntry) (r : Ring) → Holds es r → Holds (es ++ fs) (trace_all r fs)
unfolding trace_all
trace_all-Holds es [] r h = rw append-nil h
trace_all-Holds es (f ∷ fs) r h =
    rw (append_assoc es (f ∷ []) fs) at
      (trace_all-Holds (es ++ f ∷ []) fs (instr_itrace f.pc f.instr r) (Holds-step es f r h))

drop-get_or :
    (es : List TraceEntry) (k : ℕ)
    → k < length es
    → drop k es ≡ get_or es k no_entry ∷ drop (suc k) es
drop-get_or [] k h = absurd (omega arith)
drop-get_or (e ∷ es) zero h = refl
drop-get_or (e ∷ es) (suc k) h = drop-get_or es k (omega arith)

drop-length : (es : List TraceEntry) → drop (length es) es ≡ []
drop-length [] = refl
drop-length (e ∷ es) = drop-length es

display_loop-mark :
    (es : List TraceEntry) (r : Ring) (left k : ℕ)
    → Holds es r
    → k + left ≡ length es
    → left ≤ 30
    → display_loop r left (k % 30) ≡ mark (drop k es)
unfolding display_loop mark
display_loop-mark es r zero k h e small =
    let all : k ≡ length es = omega arith in rw (all, drop-length es)
display_loop-mark es r (suc zero) k h e small =
    let end : suc k ≡ length es = omega arith in
    rw (drop-get_or es k (omega arith), end, drop-length es) (ground (arith, h.ptr, h.pool k))
display_loop-mark es r (suc (suc left)) k h e small =
    let rest : display_loop r (suc left) (suc k % 30) ≡ mark (drop (suc k) es) =
      display_loop-mark es r (suc left) (suc k) h (omega arith) (omega arith) in
    let next : (k % 30 + 1) % 30 ≡ suc k % 30 = omega arith in
    rw (drop-get_or es k (omega arith), drop-get_or es (suc k) (omega arith), next)
      (ap₂ ◌∷◌ (ground (arith, h.ptr, h.pool k))
        (rw (drop-get_or es (suc k) (omega arith)) at rest))

-- The entries that the ring keeps of the instructions.
abbrev pub latest : List TraceEntry → List TraceEntry
latest es = drop (length es - 30) es

empty-Holds : Holds [] empty_ring
empty-Holds = record { ptr = refl; full = refl; pool = λ k lt ge. absurd (omega arith) }

display-latest :
    (es : List TraceEntry) (r : Ring) → Holds es r → instr_itrace_display r ≡ mark (latest es)
unfolding instr_itrace_display
display-latest es r h = elim (dec_lt (length es) 30) [
  | yes few ↦ ground (
    arith,
    h.full,
    h.ptr,
    ap (λ i. mark (drop i es)) {x = length es - 30} {y = 0},
    display_loop-mark es r (length es) 0 h (omega arith) (omega arith),
  )
  | no many ↦ ground (
    arith,
    h.full,
    h.ptr,
    display_loop-mark es r 30 (length es - 30) h (omega arith) (omega arith),
  )
]

-- After any number of instructions the display shows the latest 30 of them, or all if they are
-- fewer, the oldest first, and marks exactly the newest.
pub instr_itrace_display-trace_all :
    (es : List TraceEntry) → instr_itrace_display (trace_all empty_ring es) ≡ mark (latest es)
instr_itrace_display-trace_all es =
    display-latest es (trace_all empty_ring es) (trace_all-Holds [] es empty_ring empty-Holds)
