-- ===== src/CpuTests/Strings.antt =====
-- string.c, on the string functions of klib.
use riscv64_cpu.Base.{[], ◌∷◌, true, false, List, Bool, ℕ, ◌*◌, ◌+◌, ◌==◌}
use riscv64_cpu.Base.Bytes.{Mem, write}
use riscv64_cpu.Base.Run.{Run, done, ◌>>=◌, ◌>>◌}
use riscv64_cpu.CpuTests.Trap.{check}
use riscv64_cpu.Klib.Memory.{ℤ, pos, negsuc}
use riscv64_cpu.Klib.Compare.{strcmp, memcmp}
use riscv64_cpu.Klib.Copy.{strcpy, strcat, memset}

abbrev pub text_as : List ℕ
text_as =
    97 ∷ 97 ∷ 97 ∷ 97 ∷ 97 ∷ 97 ∷ 97 ∷ 97 ∷ 97 ∷ 97 ∷ 97 ∷ 97 ∷ 97 ∷ 97 ∷ 97 ∷ 97 ∷ 97 ∷ 97 ∷ 97
    ∷ 97 ∷ 97 ∷ 97 ∷ 97 ∷ 97 ∷ 97 ∷ 97 ∷ 97 ∷ 97 ∷ 97 ∷ 97 ∷ 97 ∷ 97 ∷ 97 ∷ 97 ∷ 97 ∷ 97 ∷ 97 ∷ 97
    ∷ 0 ∷ []

abbrev pub text_ab : List ℕ
text_ab =
    97 ∷ 97 ∷ 97 ∷ 97 ∷ 97 ∷ 97 ∷ 97 ∷ 97 ∷ 97 ∷ 97 ∷ 97 ∷ 97 ∷ 97 ∷ 97 ∷ 97 ∷ 97 ∷ 97 ∷ 97 ∷ 97
    ∷ 97 ∷ 97 ∷ 97 ∷ 97 ∷ 97 ∷ 97 ∷ 97 ∷ 97 ∷ 97 ∷ 97 ∷ 97 ∷ 97 ∷ 97 ∷ 97 ∷ 97 ∷ 97 ∷ 97 ∷ 97 ∷ 98
    ∷ 0 ∷ []

abbrev pub text_world : List ℕ
text_world = 44 ∷ 32 ∷ 87 ∷ 111 ∷ 114 ∷ 108 ∷ 100 ∷ 33 ∷ 10 ∷ 0 ∷ []

abbrev pub text_hello_world : List ℕ
text_hello_world =
    72 ∷ 101 ∷ 108 ∷ 108 ∷ 111 ∷ 44 ∷ 32 ∷ 87 ∷ 111 ∷ 114 ∷ 108 ∷ 100 ∷ 33 ∷ 10 ∷ 0 ∷ []

abbrev pub text_hashes : List ℕ
text_hashes = 35 ∷ 35 ∷ 35 ∷ 35 ∷ 35 ∷ 0 ∷ []

abbrev pub text_hello : List ℕ
text_hello = 72 ∷ 101 ∷ 108 ∷ 108 ∷ 111 ∷ 0 ∷ []

-- A string put at an address.
unfoldable pub put_text : List ℕ → ℕ → Mem → Mem
put_text [] p m = m
put_text (c ∷ cs) p m = put_text cs (p + 1) (write m p c)

-- The address of `s[i]`; `str1` and `str` stand behind the six strings.
abbrev pub s : ℕ → ℕ
s i = 0x100 * (i + 1)

abbrev pub str1 : ℕ
str1 = 0x700

abbrev pub str : ℕ
str = 0x800

unfoldable pub string_memory : Mem
unfolding put_text
string_memory = put_text text_as (s 0) (
    put_text text_ab (s 1) (
      put_text text_as (s 2) (
        put_text text_world (s 3) (
          put_text text_hello_world (s 4)
            (put_text text_hashes (s 5) (put_text text_hello str1 (λ a. 0)))))))

abbrev pub is_zero : ℤ → Bool
is_zero (pos n) = n == 0
is_zero (negsuc n) = false

abbrev pub is_below_zero : ℤ → Bool
is_below_zero (pos n) = false
is_below_zero (negsuc n) = true

-- `main`, with fuel for strings of fewer than 40 characters.
unfoldable pub string_main : Run ℕ
unfolding string_memory strcmp strcpy strcat memset memcmp
string_main = do
  let m = string_memory
  same ← strcmp 40 m (s 0) (s 2)
  check (is_zero same)
  below0 ← strcmp 40 m (s 0) (s 1)
  check (is_below_zero below0)
  below1 ← strcmp 40 m (s 0 + 1) (s 1 + 1)
  check (is_below_zero below1)
  below2 ← strcmp 40 m (s 0 + 2) (s 1 + 2)
  check (is_below_zero below2)
  below3 ← strcmp 40 m (s 0 + 3) (s 1 + 3)
  check (is_below_zero below3)
  copied ← strcpy 40 str str1 m
  joined ← strcat 40 copied.0 (s 3) copied.1
  hello ← strcmp 40 joined.1 joined.0 (s 4)
  check (is_zero hello)
  let filled = memset str 35 5 joined.1
  check (is_zero (memcmp filled.1 filled.0 (s 5) 5))
  done 0
