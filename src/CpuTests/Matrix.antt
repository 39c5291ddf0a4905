-- ===== src/CpuTests/Matrix.antt =====
-- matrix-mul.c: the matrices row by row.
use riscv64_cpu.Base.{zero, suc, [], ◌∷◌, List, ℕ, ◌*◌, ◌+◌}
use riscv64_cpu.Base.Run.{Run, done, ◌>>=◌}
use riscv64_cpu.CpuTests.Trap.{array_of}
use riscv64_cpu.CpuTests.Signed.{add_signed, mul_signed, check_table}

abbrev pub matrix_a : List ℕ
matrix_a =
    31 ∷ 4294967223 ∷ 4294967229 ∷ 4294967268 ∷ 87 ∷ 4294967279 ∷ 4294967281 ∷ 4294967261
    ∷ 4294967243 ∷ 4294967242 ∷ 52 ∷ 36 ∷ 9 ∷ 4294967205 ∷ 4294967269 ∷ 4294967218 ∷ 42 ∷ 82 ∷ 19
    ∷ 4294967290 ∷ 41 ∷ 4294967240 ∷ 31 ∷ 32 ∷ 4294967244 ∷ 74 ∷ 28 ∷ 20 ∷ 55 ∷ 4294967224
    ∷ 4294967237 ∷ 2 ∷ 4294967217 ∷ 4294967288 ∷ 44 ∷ 55 ∷ 4294967213 ∷ 4294967201 ∷ 4294967251 ∷ 50
    ∷ 4294967201 ∷ 61 ∷ 4294967233 ∷ 62 ∷ 4294967280 ∷ 52 ∷ 40 ∷ 92 ∷ 4294967264 ∷ 4294967270
    ∷ 4294967197 ∷ 52 ∷ 96 ∷ 63 ∷ 4294967221 ∷ 4294967222 ∷ 4294967214 ∷ 82 ∷ 4294967201 ∷ 42 ∷ 11
    ∷ 4294967274 ∷ 27 ∷ 4294967269 ∷ 4294967269 ∷ 4294967220 ∷ 4294967225 ∷ 58 ∷ 4294967256
    ∷ 4294967231 ∷ 91 ∷ 4294967243 ∷ 4294967229 ∷ 72 ∷ 36 ∷ 4294967219 ∷ 4294967293 ∷ 93
    ∷ 4294967272 ∷ 97 ∷ 4294967244 ∷ 4294967285 ∷ 4294967219 ∷ 4294967203 ∷ 4294967204 ∷ 4294967272
    ∷ 70 ∷ 18 ∷ 56 ∷ 88 ∷ 4294967253 ∷ 4294967255 ∷ 4294967270 ∷ 11 ∷ 4294967212 ∷ 4294967282
    ∷ 4294967255 ∷ 83 ∷ 27 ∷ 4294967285 ∷ []

abbrev pub matrix_b : List ℕ
matrix_b =
    4294967248 ∷ 4294967226 ∷ 4294967256 ∷ 4294967214 ∷ 4294967222 ∷ 4294967233 ∷ 4294967237
    ∷ 4294967224 ∷ 4294967196 ∷ 4294967224 ∷ 5 ∷ 4294967212 ∷ 28 ∷ 56 ∷ 60 ∷ 4294967263 ∷ 4294967254
    ∷ 4294967246 ∷ 4294967213 ∷ 4294967213 ∷ 4294967291 ∷ 5 ∷ 48 ∷ 75 ∷ 4294967218 ∷ 4294967287 ∷ 9
    ∷ 2 ∷ 88 ∷ 70 ∷ 69 ∷ 23 ∷ 66 ∷ 66 ∷ 4294967285 ∷ 50 ∷ 67 ∷ 18 ∷ 4294967238 ∷ 76 ∷ 30 ∷ 45 ∷ 32
    ∷ 25 ∷ 4294967223 ∷ 57 ∷ 4294967229 ∷ 4294967282 ∷ 53 ∷ 4294967263 ∷ 98 ∷ 4294967210
    ∷ 4294967233 ∷ 80 ∷ 4294967251 ∷ 4294967208 ∷ 80 ∷ 4294967232 ∷ 58 ∷ 4294967212 ∷ 4294967241
    ∷ 4294967257 ∷ 4294967283 ∷ 4294967269 ∷ 4294967259 ∷ 8 ∷ 4294967200 ∷ 84 ∷ 4294967207 ∷ 31
    ∷ 4294967214 ∷ 58 ∷ 81 ∷ 4294967255 ∷ 4294967238 ∷ 36 ∷ 76 ∷ 4294967217 ∷ 4294967267 ∷ 23 ∷ 86
    ∷ 4294967250 ∷ 16 ∷ 4294967278 ∷ 81 ∷ 90 ∷ 35 ∷ 4294967206 ∷ 43 ∷ 55 ∷ 4294967258 ∷ 4294967277
    ∷ 4294967256 ∷ 82 ∷ 4294967220 ∷ 57 ∷ 4294967267 ∷ 4294967294 ∷ 79 ∷ 4294967248 ∷ []

abbrev pub matrix_ans : List ℕ
matrix_ans =
    4294965979 ∷ 10379 ∷ 4294961475 ∷ 4294952974 ∷ 4294962966 ∷ 4294964182 ∷ 4294957356 ∷ 7033
    ∷ 4294965413 ∷ 4294961269 ∷ 4294943030 ∷ 4294966435 ∷ 4044 ∷ 4294947472 ∷ 4294967073 ∷ 886
    ∷ 4294955308 ∷ 4294960854 ∷ 4294953450 ∷ 4294966242 ∷ 9783 ∷ 4294960223 ∷ 4294966378
    ∷ 4294961385 ∷ 4294966329 ∷ 4294960196 ∷ 14605 ∷ 4294959740 ∷ 4294963857 ∷ 9607 ∷ 15980
    ∷ 4294966776 ∷ 4294953999 ∷ 15043 ∷ 6185 ∷ 4294963642 ∷ 1325 ∷ 4193 ∷ 16925 ∷ 4294949535 ∷ 2566
    ∷ 3187 ∷ 10248 ∷ 7925 ∷ 6318 ∷ 1421 ∷ 14648 ∷ 700 ∷ 4294955103 ∷ 1083 ∷ 4294954693 ∷ 19006
    ∷ 20952 ∷ 18599 ∷ 4294965757 ∷ 5184 ∷ 17408 ∷ 6740 ∷ 6264 ∷ 15114 ∷ 4294954581 ∷ 15121 ∷ 9963
    ∷ 4294953579 ∷ 2411 ∷ 4294965100 ∷ 6147 ∷ 4294965598 ∷ 4294963907 ∷ 8200 ∷ 4294948289 ∷ 12417
    ∷ 5723 ∷ 4294955987 ∷ 4294948054 ∷ 15740 ∷ 4294963505 ∷ 4294963347 ∷ 4294954166 ∷ 4294967275
    ∷ 4294954739 ∷ 4294961326 ∷ 4294955726 ∷ 4294958391 ∷ 12227 ∷ 7814 ∷ 4294962202 ∷ 4532 ∷ 1071
    ∷ 4294965987 ∷ 4294964341 ∷ 9381 ∷ 6372 ∷ 4294960398 ∷ 9117 ∷ 5753 ∷ 20778 ∷ 4294962251 ∷ 1047
    ∷ 12114 ∷ []

-- The innermost loop; the entry of `c` is not read again.
unfoldable pub dot : ℕ → ℕ → ℕ → ℕ → ℕ → Run ℕ
dot zero k i j c = done c
dot (suc left) k i j c =
    mul_signed 32 (array_of matrix_a (i * 10 + k)) (array_of matrix_b (k * 10 + j)) >>= λ p.
    add_signed 32 c p >>= λ s. dot left (k + 1) i j s

unfoldable pub matrix_main : Run ℕ
unfolding dot check_table
matrix_main = check_table (λ i j. dot 10 0 i j 0) (λ i. 0) (array_of matrix_ans) 10 10 0 0
