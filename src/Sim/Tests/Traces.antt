-- ===== src/Sim/Tests/Traces.antt =====
-- Instruction fields, patterns and the trace ring.
use riscv64_cpu.Base.{ℕ, ◌≡◌, refl, arith, List, [], ◌∷◌, true, some, none}
use riscv64_cpu.Sim.Trace.Pattern.{inst_pat, parse_pattern, parse_loop, shift_key, shift_mask}
use riscv64_cpu.Sim.Trace.Special.{instr_special_trace, codes, first_match, special_lines}
use riscv64_cpu.Sim.Trace.Ring.{
  TraceEntry, instr_itrace_display, trace_entry, empty_ring, instr_itrace,
}
use riscv64_cpu.Sim.Trace.Disjoint.{All, instr_special_trace_lem}
use riscv64_cpu.Sim.Trace.Match.{agrees, symbols, inst_pat_lem}
use riscv64_cpu.Sim.Trace.Recent.{trace_all, mark, latest, instr_itrace_display-trace_all}

abbrev mret : ℕ
mret = 0x30200073

-- `csrrw` on the timer, in any register.
abbrev csrrw_timer : ℕ
csrrw_timer = 0xc01110f3

special_labels :
    (instr_special_trace mret ≡ some "mret")
    × (instr_special_trace csrrw_timer ≡ some "csrrw")
    × (instr_special_trace 0x13 ≡ none)
unfolding instr_special_trace first_match inst_pat parse_pattern parse_loop shift_key shift_mask
special_labels = (refl, refl, refl)

inst_pat_lem_example :
    inst_pat (codes "00010?? ????? ????? 010 ????? 01011 11") 0x1000a02f
    ≡ agrees (symbols (codes "00010?? ????? ????? 010 ????? 01011 11") []) 0x1000a02f
inst_pat_lem_example =
    inst_pat_lem (codes "00010?? ????? ????? 010 ????? 01011 11") 0x1000a02f
      (unfold symbols in omega arith)

instr_special_trace_lem_example :
    All
      (λ l.
        (agrees (symbols l.pattern_text []) mret ≡ true → instr_special_trace mret ≡ some l.label)
        × (instr_special_trace mret ≡ some l.label
            → agrees (symbols l.pattern_text []) mret ≡ true))
      special_lines
instr_special_trace_lem_example = instr_special_trace_lem mret

abbrev two_entries : List TraceEntry
two_entries = trace_entry 0x80000000 0x13 ∷ trace_entry 0x80000004 mret ∷ []

shown : instr_itrace_display (trace_all empty_ring two_entries) ≡ mark two_entries
unfolding instr_itrace_display trace_all instr_itrace mark
shown = refl

instr_itrace_display-trace_all_example :
    instr_itrace_display (trace_all empty_ring two_entries) ≡ mark (latest two_entries)
instr_itrace_display-trace_all_example = instr_itrace_display-trace_all two_entries
