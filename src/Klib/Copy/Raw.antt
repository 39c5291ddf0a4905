-- ===== src/Klib/Copy/Raw.antt =====
-- `memset`, `memcpy` and `memmove`.
use riscv64_cpu.Base.{
  ℕ, ◌+◌, ◌-◌, ◌%◌, ◌^◌, ◌≤◌, ◌<◌, ◌≡◌, ◌≢◌, ◌⊎◌, refl, arith, ◌==◌, false, inl, ap,
}
use riscv64_cpu.Base.Bytes.{Mem}
use riscv64_cpu.Base.Run.{done}
use riscv64_cpu.Klib.Copy.{copy_up, copy_down, memset, memcpy, memmove}
use riscv64_cpu.Klib.Copy.Blocks.{Copied, Filled, copy_up-Copied, copy_down-Copied, fill-Filled}
use native.Mathlib.Decide.{ℕ_discrete, dec_lt}

-- `memset` fills the `n` bytes with the low byte of `c`, and no others.
pub memset_lem :
    (s c n : ℕ) (m : Mem)
    → s ≢ 0
    → ((memset s c n m).0 ≡ s) × Filled m (memset s c n m).1 s (c % 2 ^ 8) 0 n
unfolding memset
memset_lem s c n m h =
    let test : (s == 0) ≡ false = ground arith in
    rw test (refl, fill-Filled n 0 n s (c % 2 ^ 8) m (omega arith))

-- `memcpy` copies the `n` bytes, and writes no others, unless the destination begins inside the
-- source.
pub memcpy_lem :
    (dst src n : ℕ) (m : Mem)
    → dst ≢ 0
    → src ≢ 0
    → (dst ≤ src) ⊎ (src + n ≤ dst)
    → ((memcpy dst src n m).0 ≡ dst) × Copied m (memcpy dst src n m).1 dst src 0 n
unfolding memcpy
memcpy_lem dst src n m hd hs apart =
    let d : (dst == 0) ≡ false = ground arith in
    let s : (src == 0) ≡ false = ground arith in
    rw (d, s) (refl, copy_up-Copied n 0 n dst src m (omega arith) apart)

-- `memmove` copies up to INT_MAX bytes, and writes no others, however the two blocks overlap.
pub memmove_lem :
    (dst src n : ℕ) (m : Mem)
    → dst ≢ 0
    → src ≢ 0
    → n < 2 ^ 31
    → (m' : Mem) × (memmove dst src n m ≡ done (dst, m')) × Copied m m' dst src 0 n
unfolding memmove
memmove_lem dst src n m hd hs small = elim (ℕ_discrete n 0) [
  | yes none_ ↦
      (m, ground arith, record { inside = λ j lo lt. absurd (omega arith); outside = λ b h. refl })
  | no some_ ↦ elim (dec_lt dst src) [
    | yes up ↦ (
      copy_up n 0 dst src m,
      ground arith,
      copy_up-Copied n 0 n dst src m (omega arith) (inl (omega arith)),
    )
    | no down ↦ (
      copy_down n dst src m,
      ground (arith, ap (λ k. copy_down k dst src m) {x = (n - 1) % 2 ^ 32 + 1} {y = n}),
      copy_down-Copied n dst src m (inl (omega arith)),
    )
  ]
]

-- Going down, a block of more than INT_MAX and at most 2 ^ 32 bytes is not copied at all.
memmove_large :
    (dst src n : ℕ) (m : Mem)
    → dst ≢ 0
    → src ≢ 0
    → src ≤ dst
    → 2 ^ 31 < n
    → n ≤ 2 ^ 32
    → memmove dst src n m ≡ done (dst, m)
unfolding memmove
memmove_large dst src n m hd hs down lo hi = ground arith
