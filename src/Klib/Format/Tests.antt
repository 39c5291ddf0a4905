-- ===== src/Klib/Format/Tests.antt =====
-- vsprintf and printf at concrete formats.
use riscv64_cpu.Base.{refl, [], ◌∷◌, List, arith, ℕ, ◌+◌, ◌≡◌}
use riscv64_cpu.Base.Bytes.{Mem, write}
use riscv64_cpu.Base.Run.{done, Run}
use riscv64_cpu.Klib.Memory.{Str, negsuc}
use riscv64_cpu.Klib.Format.{arg_int, arg_str, vsprintf, printf, clear, Arg}
use riscv64_cpu.Klib.Format.Pieces.{Kept, Readable}
use riscv64_cpu.Klib.Format.Formatted.{
  Formats, int, str, plain, ends, escaped, vsprintf_lem, printf_lem,
}
use riscv64_cpu.Klib.Format.Decimals.{int_text}
use riscv64_cpu.Klib.Number.Digits.{div_10s}

-- "%d %s%%" at 0x100 and "hi" at 0x200.
abbrev fmt : List ℕ
fmt = b'%' ∷ b'd' ∷ b' ' ∷ b'%' ∷ b's' ∷ b'%' ∷ b'%' ∷ []

abbrev hi : List ℕ
hi = b'h' ∷ b'i' ∷ []

put_text : List ℕ → ℕ → Mem → Mem
put_text [] p m = m
put_text (c ∷ cs) p m = put_text cs (p + 1) (write m p c)

abbrev memory : Mem
unfolding put_text
memory = put_text hi 0x200 (put_text fmt 0x100 (λ a. 0))

abbrev args : List Arg
args = arg_int (negsuc 41) ∷ arg_str 0x200 ∷ []

-- "-42 hi%"
abbrev text : List ℕ
text = b'-' ∷ b'4' ∷ b'2' ∷ b' ' ∷ b'h' ∷ b'i' ∷ b'%' ∷ []

fmt-Str : Str memory 0x100 fmt
unfolding put_text write
fmt-Str = omega arith

hi-Str : Str memory 0x200 hi
unfolding put_text write
hi-Str = omega arith

apart : Readable 0x1000 7 0x2000 0x200 2
apart = (omega arith, omega arith)

fmt-Formats : Formats memory (Readable 0x1000 7 0x2000) fmt args text
unfolding int_text div_10s
fmt-Formats = int (b' ' ∷ b'h' ∷ b'i' ∷ b'%' ∷ []) (omega arith) (
    plain (omega arith) (
      str hi (b'%' ∷ []) (omega arith) hi-Str apart
        (escaped (omega arith) (omega arith) (omega arith) ends)))

vsprintf_lem_example :
    (k : Mem) × (vsprintf 20 0x1000 0x2000 0x100 args memory ≡ done (7, k))
    × Str k 0x1000 text
    × Kept 0x1000 7 0x2000 0 memory k
vsprintf_lem_example =
    vsprintf_lem 20 0x1000 0x2000 0x100 fmt text args memory (omega arith) (omega arith)
      (omega arith) (omega arith) (omega arith) (omega arith) (omega arith) fmt-Str
      (omega arith, omega arith) fmt-Formats

cleared-fmt : Str (clear 0x1000 memory) 0x100 fmt
unfolding put_text write clear
cleared-fmt = omega arith

cleared-hi : Str (clear 0x1000 memory) 0x200 hi
unfolding put_text write clear
cleared-hi = omega arith

cleared-Formats : Formats (clear 0x1000 memory) (Readable 0x1000 7 0x2000) fmt args text
unfolding int_text div_10s
cleared-Formats = int (b' ' ∷ b'h' ∷ b'i' ∷ b'%' ∷ []) (omega arith) (
    plain (omega arith) (
      str hi (b'%' ∷ []) (omega arith) cleared-hi apart
        (escaped (omega arith) (omega arith) (omega arith) ends)))

printf_lem_example : printf 1024 0x1000 0x2000 0x100 args memory ≡ done (7, text)
printf_lem_example =
    printf_lem 1024 0x1000 0x2000 0x100 fmt text args memory (omega arith) (omega arith)
      (omega arith) (omega arith) (omega arith) (omega arith) cleared-fmt (omega arith, omega arith)
      cleared-Formats

-- A format that ends in `%`: the loop goes on behind its end, where "ab" stands here.
abbrev lone : Mem
unfolding put_text
lone = put_text (b'%' ∷ 0 ∷ b'a' ∷ b'b' ∷ 0 ∷ []) 0x100 (λ a. 0)

abbrev length_of : Run (ℕ × Mem) → ℕ
length_of (done (len, m)) = len
length_of r = 0

lone_percent : length_of (vsprintf 20 0x1000 0x2000 0x100 [] lone) ≡ 3
unfolding vsprintf put_text write
lone_percent = refl
