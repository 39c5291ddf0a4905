-- ===== src/Sim/Trace/Pattern.antt =====
-- The bit patterns of `INSTPAT`, a text of `0`, `1` and `?` with spaces and `_` between.
use riscv64_cpu.Base.{ℕ, List, [], ◌∷◌, Bool, ◌||◌, ◌==◌, bit_and, bit_or, if◌then◌else◌}
use riscv64_cpu.Base.Words.{u32, ◌<<<◌}

abbrev pub is_separator : ℕ → Bool
is_separator c = (c == b' ') || (c == b'_')

-- One round of the loop of `parse_pattern` at a character that is no separator.
unfoldable pub shift_key : ℕ → ℕ → ℕ
shift_key c key = let k = u32 (key <<< 1) in if c == b'1' then bit_or k 1 else k

unfoldable pub shift_mask : ℕ → ℕ → ℕ
shift_mask c mask =
    let m = u32 (mask <<< 1) in
    if c == b'1' then bit_or m 1 else if c == b'0' then bit_or m 1 else m

-- The loop of `parse_pattern` over the characters left, up to the terminating zero.
unfoldable pub parse_loop : List ℕ → ℕ → ℕ → ℕ × ℕ
parse_loop [] key mask = (key, mask)
parse_loop (c ∷ p) key mask =
    parse_loop p (if is_separator c then key else shift_key c key)
      (if is_separator c then mask else shift_mask c mask)

-- `parse_pattern`: the key and the mask that it stores.
unfoldable pub parse_pattern : List ℕ → ℕ × ℕ
unfolding parse_loop
parse_pattern p = parse_loop p 0 0

-- The test of `INSTPAT`, `(instr & __mask) == __key`.
unfoldable pub inst_pat : List ℕ → ℕ → Bool
inst_pat p instr = let (key, mask) = parse_pattern p in bit_and instr mask == key
