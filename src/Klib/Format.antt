-- ===== src/Klib/Format.antt =====
-- klib/src/stdio.c: vsprintf, and sprintf and printf, which call it. `va_arg` with another type than
-- the argument has, or with no argument left, is undefined.
pub mod Decimals
pub mod Pieces
pub mod Directives
pub mod Steps
pub mod Formatted
mod Tests
use riscv64_cpu.Base.{
  zero, suc, [], ◌∷◌, List, ℕ, if◌then◌else◌, ◌%◌, ◌+◌, leb, ltb, ◌==◌, ◌^◌, ◌&&◌,
}
use riscv64_cpu.Base.Bytes.{Mem, write}
use riscv64_cpu.Base.Run.{Run, done, fault, out_of_fuel, ◌>>=◌}
use riscv64_cpu.Klib.Memory.{ℤ, strlen, int_max}
use riscv64_cpu.Klib.Copy.{strcpy}
use riscv64_cpu.Klib.Number.{int_to_str, uint_to_str}

-- An argument: an `int`, the address of a string, a `uint64_t`.
pub data Arg : Type 0 where
  arg_int : ℤ → Arg
  arg_str : ℕ → Arg
  arg_u64 : ℕ → Arg

-- `out_index`, the memory, and the arguments that are left.
pub record Output : Type 0 where
  pub index : ℕ
  pub mem : Mem
  pub args : List Arg

-- An index past INT_MAX overflows, or is negative at the next store.
abbrev pub advance : ℕ → ℕ → Run ℕ
advance i len = if leb (i + len) int_max then done (i + len) else fault

-- `out[out_index++] = c;`
unfoldable pub put_char : ℕ → ℕ → Output → Run Output
put_char out c o = advance o.index 1 >>= λ i.
    done (record { index = i; mem = write o.mem (out + o.index) c; args = o.args })

-- `strcpy(out + out_index, src); out_index += strlen(src);`
unfoldable pub put_str : ℕ → ℕ → ℕ → Output → Run Output
put_str n out src o = do
  (d, m) ← strcpy n (out + o.index) src o.mem
  len ← strlen n m src
  i ← advance o.index len
  done (record { index = i; mem = m; args = o.args })

-- `char s[BUF_SIZE] = {};`
abbrev pub buf_size : ℕ
buf_size = 1024

unfoldable pub clear : ℕ → Mem → Mem
clear s m b = if leb s b && ltb b (s + buf_size) then 0 else m b

-- `%d`, `%s` and `%u`.
unfoldable pub print_int : ℕ → ℕ → ℕ → List Arg → Output → Run Output
unfolding put_str
print_int n out s (arg_int num ∷ rest) o = int_to_str 11 s num (clear s o.mem) >>= λ m.
    put_str n out s (record { index = o.index; mem = m; args = rest })
print_int n out s _ o = fault

unfoldable pub print_str : ℕ → ℕ → List Arg → Output → Run Output
unfolding put_str
print_str n out (arg_str p ∷ rest) o = put_str n out p (record o { args = rest })
print_str n out _ o = fault

unfoldable pub print_uint : ℕ → ℕ → ℕ → List Arg → Output → Run Output
unfolding put_str
print_uint n out s (arg_u64 num ∷ rest) o = uint_to_str 11 s (num % 2 ^ 32) (clear s o.mem) >>= λ m.
    put_str n out s (record { index = o.index; mem = m; args = rest })
print_uint n out s _ o = fault

-- The `switch`, on the character behind a `%`.
unfoldable pub directive : ℕ → ℕ → ℕ → ℕ → Output → Run Output
unfolding print_int print_str print_uint put_char
directive n out s c o =
    if c == b'd'
    then print_int n out s o.args o
    else if c == b's'
    then print_str n out o.args o
    else if c == b'u'
    then print_uint n out s o.args o
    else put_char out c o

-- A round of the loop: the next `fmt`, and the output.
unfoldable pub format_step : ℕ → ℕ → ℕ → ℕ → Output → Run (ℕ × Output)
unfolding directive put_char
format_step n out s fmt o =
    if o.mem fmt == b'%'
    then (directive n out s (o.mem (fmt + 1)) o >>= λ o'. done (fmt + 2, o'))
    else put_char out (o.mem fmt) o >>= λ o'. done (fmt + 1, o')

unfoldable pub format_loop : ℕ → ℕ → ℕ → ℕ → ℕ → Output → Run Output
unfolding format_step
format_loop zero n out s fmt o = out_of_fuel
format_loop (suc fuel) n out s fmt o =
    let rest = format_step n out s fmt o >>= λ r. format_loop fuel n out s r.0 r.1 in
    if o.mem fmt == 0 then done o else rest

-- `vsprintf`, with the local buffers at `s` and fuel `n` for the format and for each string.
unfoldable pub vsprintf : ℕ → ℕ → ℕ → ℕ → List Arg → Mem → Run (ℕ × Mem)
unfolding format_loop
vsprintf n out s fmt args m =
    format_loop n n out s fmt (record { index = 0; mem = m; args = args }) >>= λ o.
    done (o.index, write o.mem (out + o.index) 0)

-- `sprintf`
unfoldable pub sprintf : ℕ → ℕ → ℕ → ℕ → List Arg → Mem → Run (ℕ × Mem)
unfolding vsprintf
sprintf n out s fmt args m = vsprintf n out s fmt args m

-- The calls of `putch` in `printf`.
unfoldable pub put_chars : ℕ → ℕ → Mem → List ℕ
put_chars zero p m = []
put_chars (suc left) p m = m p ∷ put_chars left (p + 1) m

-- `printf`, with its buffer at `out`, which must hold the text and its end: what it returns, and
-- what it prints.
unfoldable pub printf : ℕ → ℕ → ℕ → ℕ → List Arg → Mem → Run (ℕ × List ℕ)
unfolding vsprintf put_chars
printf n out s fmt args m = vsprintf n out s fmt args (clear out m) >>= λ r.
    if ltb r.0 buf_size then done (r.0, put_chars r.0 out r.1) else fault
