-- ===== src/Sim/Trace/Special.antt =====
-- `instr_special_trace`: the instructions that it traces.
use Prim.Native.Char.{code}
use Prim.Native.String.{String}
use riscv64_cpu.Base.{ℕ, List, [], ◌∷◌, Option, none, some, if◌then◌else◌}
use riscv64_cpu.Sim.Trace.Pattern.{inst_pat}

-- The characters of a C string.
abbrev pub codes : String → List ℕ
codes String.[] = []
codes (String.◌∷◌ c s) = code c ∷ codes s

-- An `INSTPAT` line: its pattern and its label.
pub record Line : Type 0 where
  pub pattern_text : List ℕ
  pub label : String

abbrev pub line : String → String → Line
line text name = record { pattern_text = codes text; label = name }

-- The lines of the function, in their order.
abbrev pub special_lines : List Line
special_lines =
    line "0000000 00000 00000 000 00000 11100 11" "ecall"
    ∷ line "0000000 00001 00000 000 00000 11100 11" "ebreak"
    ∷ line "0000000 00010 00000 000 00000 11100 11" "uret"
    ∷ line "0001000 00010 00000 000 00000 11100 11" "sret"
    ∷ line "0011000 00010 00000 000 00000 11100 11" "mret"
    ∷ line "0001000 00101 00000 000 00000 11100 11" "wfi"
    ∷ line "0001001 ????? ????? 000 00000 11100 11" "sfence_vma"
    ∷ line "??????? ????? ????? 001 ????? 11100 11" "csrrw"
    ∷ line "??????? ????? ????? 010 ????? 11100 11" "csrrs"
    ∷ line "??????? ????? ????? 011 ????? 11100 11" "csrrc"
    ∷ line "??????? ????? ????? 101 ????? 11100 11" "csrrwi"
    ∷ line "??????? ????? ????? 110 ????? 11100 11" "csrrsi"
    ∷ line "??????? ????? ????? 111 ????? 11100 11" "csrrci"
    ∷ line "??????? ????? ????? 000 ????? 00011 11" "fence"
    ∷ line "??????? ????? ????? 001 ????? 00011 11" "fence_i"
    ∷ line "00010?? ????? ????? 010 ????? 01011 11" "lr_w"
    ∷ line "00011?? ????? ????? 010 ????? 01011 11" "sc_w"
    ∷ line "00001?? ????? ????? 010 ????? 01011 11" "amoswap_w"
    ∷ line "00000?? ????? ????? 010 ????? 01011 11" "amoadd_w"
    ∷ line "00100?? ????? ????? 010 ????? 01011 11" "amoxor_w"
    ∷ line "01100?? ????? ????? 010 ????? 01011 11" "amoand_w"
    ∷ line "01000?? ????? ????? 010 ????? 01011 11" "amoor_w"
    ∷ line "10000?? ????? ????? 010 ????? 01011 11" "amomin_w"
    ∷ line "10100?? ????? ????? 010 ????? 01011 11" "amomax_w"
    ∷ line "11000?? ????? ????? 010 ????? 01011 11" "amominu_w"
    ∷ line "11100?? ????? ????? 010 ????? 01011 11" "amomaxu_w"
    ∷ line "00010?? ????? ????? 011 ????? 01011 11" "lr_d"
    ∷ line "00011?? ????? ????? 011 ????? 01011 11" "sc_d"
    ∷ line "00001?? ????? ????? 011 ????? 01011 11" "amoswap_d"
    ∷ line "00000?? ????? ????? 011 ????? 01011 11" "amoadd_d"
    ∷ line "00100?? ????? ????? 011 ????? 01011 11" "amoxor_d"
    ∷ line "01100?? ????? ????? 011 ????? 01011 11" "amoand_d"
    ∷ line "01000?? ????? ????? 011 ????? 01011 11" "amoor_d"
    ∷ line "10000?? ????? ????? 011 ????? 01011 11" "amomin_d"
    ∷ line "10100?? ????? ????? 011 ????? 01011 11" "amomax_d"
    ∷ line "11000?? ????? ????? 011 ????? 01011 11" "amominu_d"
    ∷ line "11100?? ????? ????? 011 ????? 01011 11" "amomaxu_d"
    ∷ []

-- The lines in turn: the first whose pattern matches traces the instruction and returns.
unfoldable pub first_match : List Line → ℕ → Option String
first_match [] instr = none
first_match (l ∷ ls) instr =
    let rest = first_match ls instr in if inst_pat l.pattern_text instr then some l.label else rest

-- The label of the line that traces the instruction, if one does.
unfoldable pub instr_special_trace : ℕ → Option String
unfolding first_match
instr_special_trace instr = first_match special_lines instr
