-- ===== src/CpuTests/HelloStr.antt =====
-- hello-str.c, on sprintf and strcmp of klib.
use riscv64_cpu.Base.{[], ◌∷◌, List, ℕ}
use riscv64_cpu.Base.Bytes.{Mem}
use riscv64_cpu.Base.Run.{Run, done, ◌>>=◌, ◌>>◌}
use riscv64_cpu.CpuTests.Trap.{check}
use riscv64_cpu.CpuTests.Strings.{put_text, is_zero}
use riscv64_cpu.Klib.Memory.{pos}
use riscv64_cpu.Klib.Compare.{strcmp}
use riscv64_cpu.Klib.Format.{Arg, arg_int, arg_str, sprintf}

abbrev pub format_s : List ℕ
format_s = 37 ∷ 115 ∷ 0 ∷ []

abbrev pub hello_line : List ℕ
hello_line = 72 ∷ 101 ∷ 108 ∷ 108 ∷ 111 ∷ 32 ∷ 119 ∷ 111 ∷ 114 ∷ 108 ∷ 100 ∷ 33 ∷ 10 ∷ 0 ∷ []

abbrev pub format_sum : List ℕ
format_sum = 37 ∷ 100 ∷ 32 ∷ 43 ∷ 32 ∷ 37 ∷ 100 ∷ 32 ∷ 61 ∷ 32 ∷ 37 ∷ 100 ∷ 10 ∷ 0 ∷ []

abbrev pub one_one : List ℕ
one_one = 49 ∷ 32 ∷ 43 ∷ 32 ∷ 49 ∷ 32 ∷ 61 ∷ 32 ∷ 50 ∷ 10 ∷ 0 ∷ []

abbrev pub two_ten : List ℕ
two_ten = 50 ∷ 32 ∷ 43 ∷ 32 ∷ 49 ∷ 48 ∷ 32 ∷ 61 ∷ 32 ∷ 49 ∷ 50 ∷ 10 ∷ 0 ∷ []

-- The literals; `buf` stands at 0x1000, and the buffers of the directives at 0x2000.
unfoldable pub literals : Mem
unfolding put_text
literals = put_text format_s 0x100 (
    put_text hello_line 0x200
      (put_text format_sum 0x300 (put_text one_one 0x400 (put_text two_ten 0x500 (λ a. 0)))))

abbrev pub three : ℕ → ℕ → ℕ → List Arg
three a b c = arg_int (pos a) ∷ arg_int (pos b) ∷ arg_int (pos c) ∷ []

-- A call of `sprintf`, and the comparison of `buf` with a literal.
unfoldable pub print_and_check : ℕ → List Arg → ℕ → Mem → Run Mem
unfolding sprintf strcmp
print_and_check fmt args expected m = do
  r ← sprintf 20 0x1000 0x2000 fmt args m
  same ← strcmp 20 r.1 0x1000 expected
  check (is_zero same)
  done r.1

-- `main`
unfoldable pub hello_main : Run ℕ
unfolding literals print_and_check
hello_main = do
  m1 ← print_and_check 0x100 (arg_str 0x200 ∷ []) 0x200 literals
  m2 ← print_and_check 0x300 (three 1 1 2) 0x400 m1
  m3 ← print_and_check 0x300 (three 2 10 12) 0x500 m2
  done 0
