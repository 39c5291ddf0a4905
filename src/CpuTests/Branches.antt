-- ===== src/CpuTests/Branches.antt =====
-- max.c, min3.c, if-else.c, switch.c and to-lower-case.c: an `int` is its word of 32 bits.
use riscv64_cpu.Base.{
  [], ◌∷◌, List, ℕ, if◌then◌else◌, ◌+◌, ◌/◌, ◌==◌, leb, ◌%◌, ◌^◌, ◌||◌, ◌&&◌, ◌-◌,
}
use riscv64_cpu.CpuTests.Trap.{check_from, array_of, gt_int, lt_int}
use riscv64_cpu.Base.Run.{Run, ◌>>◌, done}
use riscv64_cpu.Base.Words.{u8}

unfoldable pub max : ℕ → ℕ → ℕ
max x y = if gt_int x y then x else y

abbrev pub max_data : List ℕ
max_data = 0 ∷ 1 ∷ 2 ∷ 2147483647 ∷ 2147483648 ∷ 2147483649 ∷ 4294967294 ∷ 4294967295 ∷ []

abbrev pub max_ans : List ℕ
max_ans =
    0 ∷ 1 ∷ 2 ∷ 2147483647 ∷ 0 ∷ 0 ∷ 0 ∷ 0 ∷ 1 ∷ 1 ∷ 2 ∷ 2147483647 ∷ 1 ∷ 1 ∷ 1 ∷ 1 ∷ 2 ∷ 2 ∷ 2
    ∷ 2147483647 ∷ 2 ∷ 2 ∷ 2 ∷ 2 ∷ 2147483647 ∷ 2147483647 ∷ 2147483647 ∷ 2147483647 ∷ 2147483647
    ∷ 2147483647 ∷ 2147483647 ∷ 2147483647 ∷ 0 ∷ 1 ∷ 2 ∷ 2147483647 ∷ 2147483648 ∷ 2147483649
    ∷ 4294967294 ∷ 4294967295 ∷ 0 ∷ 1 ∷ 2 ∷ 2147483647 ∷ 2147483649 ∷ 2147483649 ∷ 4294967294
    ∷ 4294967295 ∷ 0 ∷ 1 ∷ 2 ∷ 2147483647 ∷ 4294967294 ∷ 4294967294 ∷ 4294967294 ∷ 4294967295 ∷ 0
    ∷ 1 ∷ 2 ∷ 2147483647 ∷ 4294967295 ∷ 4294967295 ∷ 4294967295 ∷ 4294967295 ∷ []

-- `main` of max.c: the answer `k` is of the data `k / 8` and `k % 8`.
unfoldable pub max_main : Run ℕ
unfolding max check_from
max_main =
    let values = array_of max_data in
    check_from (λ k. max (values (k / 8)) (values (k % 8)) == array_of max_ans k) 64 0 >> done 0

unfoldable pub min3 : ℕ → ℕ → ℕ → ℕ
min3 x y z = let m = if lt_int x y then x else y in if lt_int z m then z else m

abbrev pub min3_data : List ℕ
min3_data = 0 ∷ 2147483647 ∷ 2147483648 ∷ 4294967295 ∷ []

abbrev pub min3_ans : List ℕ
min3_ans =
    0 ∷ 0 ∷ 2147483648 ∷ 4294967295 ∷ 0 ∷ 0 ∷ 2147483648 ∷ 4294967295 ∷ 2147483648 ∷ 2147483648
    ∷ 2147483648 ∷ 2147483648 ∷ 4294967295 ∷ 4294967295 ∷ 2147483648 ∷ 4294967295 ∷ 0 ∷ 0
    ∷ 2147483648 ∷ 4294967295 ∷ 0 ∷ 2147483647 ∷ 2147483648 ∷ 4294967295 ∷ 2147483648 ∷ 2147483648
    ∷ 2147483648 ∷ 2147483648 ∷ 4294967295 ∷ 4294967295 ∷ 2147483648 ∷ 4294967295 ∷ 2147483648
    ∷ 2147483648 ∷ 2147483648 ∷ 2147483648 ∷ 2147483648 ∷ 2147483648 ∷ 2147483648 ∷ 2147483648
    ∷ 2147483648 ∷ 2147483648 ∷ 2147483648 ∷ 2147483648 ∷ 2147483648 ∷ 2147483648 ∷ 2147483648
    ∷ 2147483648 ∷ 4294967295 ∷ 4294967295 ∷ 2147483648 ∷ 4294967295 ∷ 4294967295 ∷ 4294967295
    ∷ 2147483648 ∷ 4294967295 ∷ 2147483648 ∷ 2147483648 ∷ 2147483648 ∷ 2147483648 ∷ 4294967295
    ∷ 4294967295 ∷ 2147483648 ∷ 4294967295 ∷ []

-- `main` of min3.c: the answer `k` is of the data `k / 16`, `k / 4 % 4` and `k % 4`.
unfoldable pub min3_main : Run ℕ
unfolding min3 check_from
min3_main =
    let values = array_of min3_data in
    check_from
      (λ k. min3 (values (k / 16)) (values (k / 4 % 4)) (values (k % 4)) == array_of min3_ans k) 64
      0
    >> done 0

unfoldable pub if_else : ℕ → ℕ
if_else n =
    if gt_int n 500
    then 150
    else if gt_int n 300
    then 100
    else if gt_int n 100
    then 75
    else if gt_int n 50
    then 50
    else 0

abbrev pub if_else_data : List ℕ
if_else_data =
    4294967295 ∷ 0 ∷ 49 ∷ 50 ∷ 51 ∷ 99 ∷ 100 ∷ 101 ∷ 299 ∷ 300 ∷ 301 ∷ 499 ∷ 500 ∷ 501 ∷ []

abbrev pub if_else_ans : List ℕ
if_else_ans = 0 ∷ 0 ∷ 0 ∷ 0 ∷ 50 ∷ 50 ∷ 50 ∷ 75 ∷ 75 ∷ 75 ∷ 100 ∷ 100 ∷ 100 ∷ 150 ∷ []

-- `main` of if-else.c
unfoldable pub if_else_main : Run ℕ
unfolding if_else check_from
if_else_main =
    check_from (λ k. if_else (array_of if_else_data k) == array_of if_else_ans k) 14 0 >> done 0

-- `-1` is the word of 32 ones.
unfoldable pub switch_case : ℕ → ℕ
switch_case n =
    if n == 0
    then 0
    else if n == 1
    then 2
    else if (n == 2) || (n == 3)
    then 5
    else if (n == 4) || (n == 5) || (n == 6) || (n == 7)
    then 8
    else if (n == 8) || (n == 9) || (n == 10) || (n == 11)
    then 10
    else if n == 12
    then 15
    else 2 ^ 32 - 1

abbrev pub switch_ans : List ℕ
switch_ans = 4294967295 ∷ 0 ∷ 2 ∷ 5 ∷ 5 ∷ 8 ∷ 8 ∷ 8 ∷ 8 ∷ 10 ∷ 10 ∷ 10 ∷ 10 ∷ 15 ∷ 4294967295 ∷ []

-- `main` of switch.c
unfoldable pub switch_main : Run ℕ
unfolding switch_case check_from
switch_main =
    check_from (λ k. switch_case ((k + 2 ^ 32 - 1) % 2 ^ 32) == array_of switch_ans k) 15 0
    >> done 0

-- `char` is unsigned.
unfoldable pub to_lower_case : ℕ → ℕ
to_lower_case c = if leb 65 c && leb c 90 then u8 (c + 32) else c

abbrev pub to_lower_ans : List ℕ
to_lower_ans =
    0 ∷ 1 ∷ 2 ∷ 3 ∷ 4 ∷ 5 ∷ 6 ∷ 7 ∷ 8 ∷ 9 ∷ 10 ∷ 11 ∷ 12 ∷ 13 ∷ 14 ∷ 15 ∷ 16 ∷ 17 ∷ 18 ∷ 19 ∷ 20
    ∷ 21 ∷ 22 ∷ 23 ∷ 24 ∷ 25 ∷ 26 ∷ 27 ∷ 28 ∷ 29 ∷ 30 ∷ 31 ∷ 32 ∷ 33 ∷ 34 ∷ 35 ∷ 36 ∷ 37 ∷ 38 ∷ 39
    ∷ 40 ∷ 41 ∷ 42 ∷ 43 ∷ 44 ∷ 45 ∷ 46 ∷ 47 ∷ 48 ∷ 49 ∷ 50 ∷ 51 ∷ 52 ∷ 53 ∷ 54 ∷ 55 ∷ 56 ∷ 57 ∷ 58
    ∷ 59 ∷ 60 ∷ 61 ∷ 62 ∷ 63 ∷ 64 ∷ 97 ∷ 98 ∷ 99 ∷ 100 ∷ 101 ∷ 102 ∷ 103 ∷ 104 ∷ 105 ∷ 106 ∷ 107
    ∷ 108 ∷ 109 ∷ 110 ∷ 111 ∷ 112 ∷ 113 ∷ 114 ∷ 115 ∷ 116 ∷ 117 ∷ 118 ∷ 119 ∷ 120 ∷ 121 ∷ 122 ∷ 91
    ∷ 92 ∷ 93 ∷ 94 ∷ 95 ∷ 96 ∷ 97 ∷ 98 ∷ 99 ∷ 100 ∷ 101 ∷ 102 ∷ 103 ∷ 104 ∷ 105 ∷ 106 ∷ 107 ∷ 108
    ∷ 109 ∷ 110 ∷ 111 ∷ 112 ∷ 113 ∷ 114 ∷ 115 ∷ 116 ∷ 117 ∷ 118 ∷ 119 ∷ 120 ∷ 121 ∷ 122 ∷ 123 ∷ 124
    ∷ 125 ∷ 126 ∷ 127 ∷ []

-- `main` of to-lower-case.c
unfoldable pub to_lower_main : Run ℕ
unfolding to_lower_case check_from
to_lower_main = check_from (λ k. to_lower_case k == array_of to_lower_ans k) 128 0 >> done 0
