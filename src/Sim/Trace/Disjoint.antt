-- ===== src/Sim/Trace/Disjoint.antt =====
-- The lines of `instr_special_trace` do not overlap, so their order does not matter.
use Prim.Native.String.{String}
use text.Mathlib.TextEquality.{eq_iff}
use riscv64_cpu.Sim.Trace.Pattern.{inst_pat}
use text.Mathlib.Text.{◌==◌ as str_eq}
use riscv64_cpu.Base.{
  ℕ, ◌/◌, ◌≡◌, refl, arith, List, [], ◌∷◌, length, Bool, true, false, ◌&&◌, ◌||◌, not, ◌==◌, leb,
  Option, ◌≤◌, Bool-cases, some, inl, inr,
}
use riscv64_cpu.Sim.Trace.Match.{symbols, agrees, inst_pat_lem}
use riscv64_cpu.Sim.Trace.Special.{Line, special_lines, first_match, instr_special_trace}

-- At some place one asks for a 0 and the other for a 1.
conflict : List ℕ → List ℕ → Bool
conflict [] t = false
conflict (c ∷ s) [] = false
conflict (c ∷ s) (d ∷ t) =
    ((c == b'1') && (d == b'0')) || ((c == b'0') && (d == b'1')) || conflict s t

conflict-agrees :
    (s t : List ℕ) (i : ℕ) → conflict s t ≡ true → agrees s i ≡ true → agrees t i ≡ true → ⊥
unfolding conflict agrees
conflict-agrees [] t i h p q = cc
conflict-agrees (c ∷ s) [] i h p q = cc
conflict-agrees (c ∷ s) (d ∷ t) i h p q = ground (arith, conflict-agrees s t (i / 2))

abbrev bits_of : Line → List ℕ
bits_of l = symbols l.pattern_text []

-- A line has at most 32 symbols, and differs from each of the lines in label and in some bit.
separate : Line → List Line → Bool
separate l [] = leb (length (bits_of l)) 32
separate l (k ∷ ls) =
    not (str_eq l.label k.label) && conflict (bits_of l) (bits_of k) && separate l ls

apart : List Line → Bool
apart [] = true
apart (l ∷ ls) = separate l ls && apart ls

special_apart : apart special_lines ≡ true
unfolding apart separate conflict symbols
special_apart = refl

-- What the code tests at a line: its symbols agree with the instruction.
abbrev Hits : ℕ → Line → Type 0
Hits i l = agrees (bits_of l) i ≡ true

-- The line traces the instruction exactly when it hits.
abbrev Traces : (ℕ → Option String) → ℕ → Line → Type 0
Traces trace i l = (Hits i l → trace i ≡ some l.label) × (trace i ≡ some l.label → Hits i l)

abbrev pub All {ℓ} : {A : Type ℓ} → (A → Type 0) → List A → Type 0
All P [] = Unit
All P (x ∷ xs) = P x × All P xs

separate_short : (l : Line) (ls : List Line) → separate l ls ≡ true → length (bits_of l) ≤ 32
unfolding separate
separate_short l [] h = ground arith
separate_short l (k ∷ ls) h = ground (arith, separate_short l ls)

-- A line that is separate from the lines has none of their labels.
first_match-label :
    (l : Line) (ls : List Line) (i : ℕ) → separate l ls ≡ true → first_match ls i ≡ some l.label → ⊥
unfolding separate first_match
first_match-label l [] i h e = cc
first_match-label l (k ∷ ls) i h e =
    ground (arith, eq_iff l.label k.label, first_match-label l ls i)

inst_pat_hit :
    (l : Line) (ls : List Line) (i : ℕ)
    → separate l ls ≡ true
    → inst_pat l.pattern_text i ≡ agrees (bits_of l) i
inst_pat_hit l ls i h = inst_pat_lem l.pattern_text i (separate_short l ls h)

-- A line in front changes nothing for the lines that it is separate from.
Traces-cons :
    (l : Line) (ls rest : List Line) (i : ℕ)
    → inst_pat l.pattern_text i ≡ agrees (bits_of l) i
    → separate l ls ≡ true
    → All (Traces (first_match rest) i) ls
    → All (Traces (first_match (l ∷ rest)) i) ls
unfolding separate first_match
Traces-cons l [] rest i e h t = tt
Traces-cons l (k ∷ ls) rest i e h t = (
  (
    ground (arith, eq_iff l.label k.label, conflict-agrees (bits_of l) (bits_of k) i, t.0),
    ground (arith, eq_iff l.label k.label, t.0),
  ),
  Traces-cons l ls rest i e (ground arith) t.1,
)

apart-Traces : (ls : List Line) (i : ℕ) → apart ls ≡ true → All (Traces (first_match ls) i) ls
unfolding apart
apart-Traces [] i h = tt
apart-Traces (l ∷ ls) i h = elim (Bool-cases (separate l ls)) [
  | inl s ↦ (
    head l ls i s,
    Traces-cons l ls ls i (inst_pat_hit l ls i s) s (apart-Traces ls i (ground arith)),
  )
  | inr n ↦ absurd (ground arith)
]
  where
    head :
        (l : Line) (ls : List Line) (i : ℕ)
        → separate l ls ≡ true
        → Traces (first_match (l ∷ ls)) i l
    head l ls i s =
        unfold first_match in
        (
          ground (arith, inst_pat_hit l ls i s),
          ground (arith, inst_pat_hit l ls i s, first_match-label l ls i s),
        )

-- An instruction is traced under a line's label exactly when its bits are as the line's pattern
-- asks, for each of the 37 lines: no line hides another.
pub instr_special_trace_lem :
    (instr : ℕ)
    → All
        (λ l.
          (agrees (symbols l.pattern_text []) instr ≡ true
            → instr_special_trace instr ≡ some l.label)
          × (instr_special_trace instr ≡ some l.label
              → agrees (symbols l.pattern_text []) instr ≡ true))
        special_lines
unfolding instr_special_trace
instr_special_trace_lem instr = apart-Traces special_lines instr special_apart
