-- ===== src/Klib/Tests.antt =====
-- The string functions on two short strings: "hi" at 0x100 and "hop" at 0x200.
use riscv64_cpu.Base.{
  refl, List, if◌then◌else◌, arith, ℕ, ◌==◌, ◌≡◌, ◌+◌, ◌∷◌, [], ◌<◌, ◌↔◌, ◌≤◌, inl,
}
use riscv64_cpu.Base.Bytes.{Mem, write}
use riscv64_cpu.Klib.Compare.{strcmp, strcmp_loop}
use riscv64_cpu.Klib.Compare.Order.{strcmp-zero_iff}
use riscv64_cpu.Klib.Copy.{memmove, strcpy, copy_down}
use riscv64_cpu.Klib.Memory.{Str, strlen, negsuc, pos, strlen_lem, int_max}
use riscv64_cpu.Klib.Copy.Blocks.{Copied}
use riscv64_cpu.Klib.Copy.Strings.{StrCopied, strcpy_lem}
use riscv64_cpu.Base.Run.{done, fault}
use riscv64_cpu.Klib.Copy.Raw.{memmove_lem}
use riscv64_cpu.Klib.Number.Digits.{div_10s}
use riscv64_cpu.Klib.Number.{int_to_str, uint_to_str, atoi, digits_loop, swap_str, swap_loop}
use riscv64_cpu.Klib.Stdlib.{abs, rand, next_init}
use riscv64_cpu.Klib.Number.Text.{Decimal}
use riscv64_cpu.Klib.Number.Atoi.{amount_read, atoi-uint_to_str, atoi-Decimal, atoi-int_to_str}
use riscv64_cpu.Klib.Number.Signed.{Signed, int_to_str_lem}

abbrev blank : Mem
blank a = 0

abbrev hi : List ℕ
hi = 104 ∷ 105 ∷ []

abbrev hop : List ℕ
hop = 104 ∷ 111 ∷ 112 ∷ []

abbrev words : Mem
words a =
    if a == 0x100
    then 104
    else if a == 0x101
    then 105
    else if a == 0x200
    then 104
    else if a == 0x201
    then 111
    else if a == 0x202
    then 112
    else 0

hi-Str : Str words 0x100 hi
hi-Str = (refl, omega arith, (refl, omega arith, refl))

hop-Str : Str words 0x200 hop
hop-Str = (refl, omega arith, (refl, omega arith, (refl, omega arith, refl)))

-- The comparison of "hi" and "hop" is that of their second characters.
strcmp_hi_hop : strcmp 8 words 0x100 0x200 ≡ done (negsuc 5)
unfolding strcmp strcmp_loop
strcmp_hi_hop = refl

-- Moving a block by one byte, in both directions.
memmove_overlap : (m' : Mem) × (memmove 0x201 0x200 3 words ≡ done (0x201, m')) × (m' 0x203 ≡ 112)
unfolding memmove copy_down write
memmove_overlap = (copy_down 3 0x201 0x200 words, refl, refl)

strlen_lem_example : strlen 4 words 0x200 ≡ done 3
strlen_lem_example = strlen_lem 4 words 0x200 hop hop-Str (omega arith)

strcpy_lem_example :
    (m' : Mem) × (strcpy 4 0x300 0x200 words ≡ done (0x300, m'))
    × StrCopied words m' 0x300 0x200 hop
strcpy_lem_example =
    strcpy_lem 4 0x300 0x200 hop words (omega arith) (omega arith) hop-Str (omega arith)
      (omega arith)

memmove_lem_example :
    (m' : Mem) × (memmove 0x201 0x200 3 words ≡ done (0x201, m')) × Copied words m' 0x201 0x200 0 3
memmove_lem_example = memmove_lem 0x201 0x200 3 words (omega arith) (omega arith) (omega arith)

strcmp-zero_iff_example : (strcmp 4 words 0x100 0x200 ≡ done (pos 0)) ↔ (hi ≡ hop)
strcmp-zero_iff_example =
    strcmp-zero_iff 4 words 0x100 0x200 hi hop (omega arith) (omega arith) hi-Str hop-Str
      (omega arith) (omega arith)

-- The first number of `rand`, and `abs` of INT_MIN.
first_rand : (rand next_init).0 ≡ 16838
unfolding rand
first_rand = refl

abs_int_min : abs (negsuc int_max) ≡ fault
unfolding abs
abs_int_min = refl

-- The text of -305.
int_to_str_negative :
    (m' : Mem) × (int_to_str 11 0x300 (negsuc 304) blank ≡ done m')
    × (m' 0x300 ≡ 45)
    × (m' 0x301 ≡ 51)
    × (m' 0x302 ≡ 48)
    × (m' 0x303 ≡ 53)
    × (m' 0x304 ≡ 0)
unfolding int_to_str digits_loop swap_str swap_loop write
int_to_str_negative = (_, refl, refl, refl, refl, refl, refl)

int_to_str_lem_example :
    (len : ℕ) × (k : Mem) × (len ≤ 10)
    × (int_to_str 11 0x300 (negsuc int_max) words ≡ done k)
    × Signed words k 0x300 (negsuc int_max) len
int_to_str_lem_example = int_to_str_lem 0x300 (negsuc int_max) words (omega arith) (omega arith)

atoi-uint_to_str_example :
    (k : Mem) × (uint_to_str 11 0x300 90210 words ≡ done k) × (atoi 11 k 0x300 ≡ done 90210)
atoi-uint_to_str_example = atoi-uint_to_str 0x300 90210 words (omega arith) (omega arith)

atoi-int_to_str_example :
    (k : Mem) × (int_to_str 11 0x300 (negsuc 6) words ≡ done k)
    × (atoi 11 k 0x300 ≡ done (amount_read (negsuc 6)))
atoi-int_to_str_example =
    atoi-int_to_str 0x300 (negsuc 6) words (omega arith) (omega arith) (omega arith)

-- "7" at 0x300.
abbrev seven : Mem
seven a = if a == 0x300 then 55 else 0

seven-Decimal : Decimal seven 0x300 7 1
unfolding div_10s
seven-Decimal = record {
  digits = λ j lt. let e : j ≡ 0 = omega arith in rw e refl;
  ends = refl;
  some_ = omega arith;
  needed = inl refl;
  terminated = refl;
}

atoi-Decimal_example :
    (7 + 48 ≤ int_max → atoi 2 seven 0x300 ≡ done 7)
    × (int_max < 7 + 48 → atoi 2 seven 0x300 ≡ fault)
atoi-Decimal_example = atoi-Decimal 2 0x300 7 1 seven seven-Decimal (omega arith)
