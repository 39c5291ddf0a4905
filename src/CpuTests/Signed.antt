-- ===== src/CpuTests/Signed.antt =====
-- add.c, add-longlong.c, sub-longlong.c, mul-longlong.c and matrix-mul.c: signed numbers of `w`
-- bits, as words in two's complement. A result that does not fit is undefined.
use riscv64_cpu.Base.{
  zero, suc, [], ◌∷◌, List, Bool, ℕ, if◌then◌else◌, leb, ◌*◌, ◌+◌, ◌^◌, not, ◌&&◌, ◌-◌, ◌==◌, ltb,
  ◌%◌,
}
use riscv64_cpu.Base.Run.{Run, done, fault, ◌>>=◌, ◌>>◌}
use riscv64_cpu.CpuTests.Trap.{check, array_of}
use riscv64_cpu.Base.Bytes.{Mem}

-- A word, as its number plus 2 ^ (w - 1).
abbrev pub biased : ℕ → ℕ → ℕ
biased w x = (x + 2 ^ (w - 1)) % 2 ^ w

-- A biased result with another bias: it fits if it is not below the bias nor 2 ^ w above it.
abbrev pub unbiased : ℕ → ℕ → ℕ → Run ℕ
unbiased w bias s =
    if leb bias s && ltb s (bias + 2 ^ w) then done ((s - bias + 2 ^ (w - 1)) % 2 ^ w) else fault

abbrev pub add_signed : ℕ → ℕ → ℕ → Run ℕ
add_signed w x y = unbiased w (2 ^ (w - 1)) (biased w x + biased w y)

abbrev pub sub_signed : ℕ → ℕ → ℕ → Run ℕ
sub_signed w x y = unbiased w (2 ^ (w - 1)) (biased w x + (2 ^ w - biased w y))

abbrev pub is_negative : ℕ → ℕ → Bool
is_negative w x = leb (2 ^ (w - 1)) x

abbrev pub magnitude : ℕ → ℕ → ℕ
magnitude w x = if is_negative w x then 2 ^ w - x else x

abbrev pub differ : Bool → Bool → Bool
differ a b = if a then not b else b

abbrev pub mul_signed : ℕ → ℕ → ℕ → Run ℕ
mul_signed w x y =
    let p = magnitude w x * magnitude w y in
    if differ (is_negative w x) (is_negative w y)
    then (if leb p (2 ^ (w - 1)) then done ((2 ^ w - p) % 2 ^ w) else fault)
    else (if ltb p (2 ^ (w - 1)) then done p else fault)

-- The loops over two indices with the running index of the answers: `check_row` is the inner one.
unfoldable pub check_row : (ℕ → Run ℕ) → Mem → ℕ → ℕ → ℕ → Run ℕ
check_row op ans zero j k = done k
check_row op ans (suc left) j k =
    op j >>= λ c. check (c == ans k) >> check_row op ans left (j + 1) (k + 1)

-- With `first i` the first index of the inner loop.
unfoldable pub check_table : (ℕ → ℕ → Run ℕ) → (ℕ → ℕ) → Mem → ℕ → ℕ → ℕ → ℕ → Run ℕ
unfolding check_row
check_table op first ans n zero i k = done 0
check_table op first ans n (suc left) i k = check_row (op i) ans (n - first i) (first i) k >>= λ k'.
    check_table op first ans n left (i + 1) k'

abbrev pub add_data : List ℕ
add_data = 0 ∷ 1 ∷ 2 ∷ 2147483647 ∷ 2147483648 ∷ 2147483649 ∷ 4294967294 ∷ 4294967295 ∷ []

abbrev pub add_ans : List ℕ
add_ans =
    0 ∷ 1 ∷ 2 ∷ 2147483647 ∷ 2147483648 ∷ 2147483649 ∷ 4294967294 ∷ 4294967295 ∷ 1 ∷ 2 ∷ 3
    ∷ 2147483648 ∷ 2147483649 ∷ 2147483650 ∷ 4294967295 ∷ 0 ∷ 2 ∷ 3 ∷ 4 ∷ 2147483649 ∷ 2147483650
    ∷ 2147483651 ∷ 0 ∷ 1 ∷ 2147483647 ∷ 2147483648 ∷ 2147483649 ∷ 4294967294 ∷ 4294967295 ∷ 0
    ∷ 2147483645 ∷ 2147483646 ∷ 2147483648 ∷ 2147483649 ∷ 2147483650 ∷ 4294967295 ∷ 0 ∷ 1
    ∷ 2147483646 ∷ 2147483647 ∷ 2147483649 ∷ 2147483650 ∷ 2147483651 ∷ 0 ∷ 1 ∷ 2 ∷ 2147483647
    ∷ 2147483648 ∷ 4294967294 ∷ 4294967295 ∷ 0 ∷ 2147483645 ∷ 2147483646 ∷ 2147483647 ∷ 4294967292
    ∷ 4294967293 ∷ 4294967295 ∷ 0 ∷ 1 ∷ 2147483646 ∷ 2147483647 ∷ 2147483648 ∷ 4294967293
    ∷ 4294967294 ∷ []

-- `main` of add.c
unfoldable pub add_main : Run ℕ
unfolding check_table
add_main =
    let values = array_of add_data in
    check_table (λ i j. add_signed 32 (values i) (values j)) (λ i. 0) (array_of add_ans) 8 8 0 0

abbrev pub add_long_data : List ℕ
add_long_data =
    0 ∷ 1 ∷ 2 ∷ 9223372036854775807 ∷ 9223372036854775808 ∷ 9223372036854775809
    ∷ 18446744073709551614 ∷ 18446744073709551615 ∷ []

abbrev pub add_long_ans : List ℕ
add_long_ans =
    0 ∷ 1 ∷ 2 ∷ 9223372036854775807 ∷ 9223372036854775808 ∷ 9223372036854775809
    ∷ 18446744073709551614 ∷ 18446744073709551615 ∷ 1 ∷ 2 ∷ 3 ∷ 9223372036854775808
    ∷ 9223372036854775809 ∷ 9223372036854775810 ∷ 18446744073709551615 ∷ 0 ∷ 2 ∷ 3 ∷ 4
    ∷ 9223372036854775809 ∷ 9223372036854775810 ∷ 9223372036854775811 ∷ 0 ∷ 1 ∷ 9223372036854775807
    ∷ 9223372036854775808 ∷ 9223372036854775809 ∷ 18446744073709551614 ∷ 18446744073709551615 ∷ 0
    ∷ 9223372036854775805 ∷ 9223372036854775806 ∷ 9223372036854775808 ∷ 9223372036854775809
    ∷ 9223372036854775810 ∷ 18446744073709551615 ∷ 0 ∷ 1 ∷ 9223372036854775806 ∷ 9223372036854775807
    ∷ 9223372036854775809 ∷ 9223372036854775810 ∷ 9223372036854775811 ∷ 0 ∷ 1 ∷ 2
    ∷ 9223372036854775807 ∷ 9223372036854775808 ∷ 18446744073709551614 ∷ 18446744073709551615 ∷ 0
    ∷ 9223372036854775805 ∷ 9223372036854775806 ∷ 9223372036854775807 ∷ 18446744073709551612
    ∷ 18446744073709551613 ∷ 18446744073709551615 ∷ 0 ∷ 1 ∷ 9223372036854775806
    ∷ 9223372036854775807 ∷ 9223372036854775808 ∷ 18446744073709551613 ∷ 18446744073709551614 ∷ []

-- `main` of add-longlong.c
unfoldable pub add_long_main : Run ℕ
unfolding check_table
add_long_main =
    let values = array_of add_long_data in
    check_table (λ i j. add_signed 64 (values i) (values j)) (λ i. 0) (array_of add_long_ans) 8 8 0
      0

abbrev pub sub_long_data : List ℕ
sub_long_data =
    0 ∷ 1 ∷ 2 ∷ 9223372036854775807 ∷ 9223372036854775808 ∷ 9223372036854775809
    ∷ 18446744073709551614 ∷ 18446744073709551615 ∷ []

abbrev pub sub_long_ans : List ℕ
sub_long_ans =
    0 ∷ 18446744073709551615 ∷ 18446744073709551614 ∷ 9223372036854775809 ∷ 9223372036854775808
    ∷ 9223372036854775807 ∷ 2 ∷ 1 ∷ 1 ∷ 0 ∷ 18446744073709551615 ∷ 9223372036854775810
    ∷ 9223372036854775809 ∷ 9223372036854775808 ∷ 3 ∷ 2 ∷ 2 ∷ 1 ∷ 0 ∷ 9223372036854775811
    ∷ 9223372036854775810 ∷ 9223372036854775809 ∷ 4 ∷ 3 ∷ 9223372036854775807 ∷ 9223372036854775806
    ∷ 9223372036854775805 ∷ 0 ∷ 18446744073709551615 ∷ 18446744073709551614 ∷ 9223372036854775809
    ∷ 9223372036854775808 ∷ 9223372036854775808 ∷ 9223372036854775807 ∷ 9223372036854775806 ∷ 1 ∷ 0
    ∷ 18446744073709551615 ∷ 9223372036854775810 ∷ 9223372036854775809 ∷ 9223372036854775809
    ∷ 9223372036854775808 ∷ 9223372036854775807 ∷ 2 ∷ 1 ∷ 0 ∷ 9223372036854775811
    ∷ 9223372036854775810 ∷ 18446744073709551614 ∷ 18446744073709551613 ∷ 18446744073709551612
    ∷ 9223372036854775807 ∷ 9223372036854775806 ∷ 9223372036854775805 ∷ 0 ∷ 18446744073709551615
    ∷ 18446744073709551615 ∷ 18446744073709551614 ∷ 18446744073709551613 ∷ 9223372036854775808
    ∷ 9223372036854775807 ∷ 9223372036854775806 ∷ 1 ∷ 0 ∷ []

-- `main` of sub-longlong.c
unfoldable pub sub_long_main : Run ℕ
unfolding check_table
sub_long_main =
    let values = array_of sub_long_data in
    check_table (λ i j. sub_signed 64 (values i) (values j)) (λ i. 0) (array_of sub_long_ans) 8 8 0
      0

abbrev pub mul_data : List ℕ
mul_data = 2930885290 ∷ 1157693227 ∷ 2272366767 ∷ 301212728 ∷ []

abbrev pub mul_ans : List ℕ
mul_ans =
    1860719719092984036 ∷ 16867555574290778254 ∷ 2758992986934981174 ∷ 18035865211466579248
    ∷ 1340253607841673529 ∷ 16105193140359634533 ∷ 348711935091793256 ∷ 4090912899911079841
    ∷ 17837511050715218504 ∷ 90729107509201984 ∷ []

-- `main` of mul-longlong.c: an `int` becomes a `long long` with its sign.
abbrev pub to_long : ℕ → ℕ
to_long x = (biased 32 x + 2 ^ 64 - 2 ^ 31) % 2 ^ 64

unfoldable pub mul_main : Run ℕ
unfolding check_table
mul_main =
    let values = array_of mul_data in
    check_table (λ i j. mul_signed 64 (to_long (values i)) (to_long (values j))) (λ i. i)
      (array_of mul_ans) 4 4 0 0
