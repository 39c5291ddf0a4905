-- ===== src/Klib/Copy/Blocks.antt =====
-- What the copying and filling loops leave in memory.
use riscv64_cpu.Base.{ℕ, zero, suc, ◌+◌, ◌≤◌, ◌<◌, ◌≡◌, ◌⊎◌, ◌∙◌, refl, arith}
use riscv64_cpu.Base.Bytes.{Mem, write, write_self, write_ne}
use riscv64_cpu.Klib.Copy.{copy_up, copy_down, fill}
use native.Mathlib.Decide.{ℕ_discrete}

-- The bytes `lo` to `hi` at `dst` are those that `m` had at `src`, and no others changed.
pub record Copied (m k : Mem) (dst src lo hi : ℕ) : Type 0 where
  pub inside : (j : ℕ) → lo ≤ j → j < hi → k (dst + j) ≡ m (src + j)
  pub outside : (b : ℕ) → (b < dst + lo) ⊎ (dst + hi ≤ b) → k b ≡ m b

-- A block copied after its first byte, whose source that byte did not overwrite.
first-Copied :
    (m k : Mem) (dst src i hi : ℕ)
    → (dst ≤ src) ⊎ (src + hi ≤ dst)
    → i < hi
    → Copied (write m (dst + i) (m (src + i))) k dst src (i + 1) hi
    → Copied m k dst src i hi
first-Copied m k dst src i hi apart below rest = record {
  inside = λ j lo lt. elim (ℕ_discrete i j) [
    | yes here ↦
        let e : dst + j ≡ dst + i = omega arith in
        let f : src + j ≡ src + i = omega arith in
        rw (e, f) (rest.outside (dst + i) (omega arith) ∙ write_self m (dst + i) (m (src + i)))
    | no ne ↦
        rest.inside j (omega arith) lt ∙ write_ne m (dst + i) (m (src + i)) (src + j) (omega arith)
  ];
  outside =
      λ b h. rest.outside b (omega arith) ∙ write_ne m (dst + i) (m (src + i)) b (omega arith);
}

-- A block copied before its last byte, whose source the last byte's write did not overwrite.
last-Copied :
    (m k : Mem) (dst src i : ℕ)
    → (src ≤ dst) ⊎ (dst + suc i ≤ src)
    → Copied (write m (dst + i) (m (src + i))) k dst src 0 i
    → Copied m k dst src 0 (suc i)
last-Copied m k dst src i apart rest = record {
  inside = λ j lo lt. elim (ℕ_discrete i j) [
    | yes here ↦
        let e : dst + j ≡ dst + i = omega arith in
        let f : src + j ≡ src + i = omega arith in
        rw (e, f) (rest.outside (dst + i) (omega arith) ∙ write_self m (dst + i) (m (src + i)))
    | no ne ↦
        rest.inside j lo (omega arith) ∙ write_ne m (dst + i) (m (src + i)) (src + j) (omega arith)
  ];
  outside =
      λ b h. rest.outside b (omega arith) ∙ write_ne m (dst + i) (m (src + i)) b (omega arith);
}

-- Going up is right unless the destination begins inside the source.
pub copy_up-Copied :
    (left i hi dst src : ℕ) (m : Mem)
    → i + left ≡ hi
    → (dst ≤ src) ⊎ (src + hi ≤ dst)
    → Copied m (copy_up left i dst src m) dst src i hi
unfolding copy_up
copy_up-Copied zero i hi dst src m e apart = record {
  inside = λ j lo lt. absurd (omega arith);
  outside = λ b h. refl;
}
copy_up-Copied (suc left) i hi dst src m e apart =
    first-Copied m _ dst src i hi apart (omega arith)
      (copy_up-Copied left (i + 1) hi dst src (write m (dst + i) (m (src + i))) (omega arith) apart)

-- Going down is right unless the source begins inside the destination.
pub copy_down-Copied :
    (n dst src : ℕ) (m : Mem)
    → (src ≤ dst) ⊎ (dst + n ≤ src)
    → Copied m (copy_down n dst src m) dst src 0 n
unfolding copy_down
copy_down-Copied zero dst src m apart = record {
  inside = λ j lo lt. absurd (omega arith);
  outside = λ b h. refl;
}
copy_down-Copied (suc i) dst src m apart =
    last-Copied m _ dst src i apart
      (copy_down-Copied i dst src (write m (dst + i) (m (src + i))) (omega arith))

-- The bytes `lo` to `hi` at `dst` are `v`, and no others changed.
pub record Filled (m k : Mem) (dst v lo hi : ℕ) : Type 0 where
  pub inside : (j : ℕ) → lo ≤ j → j < hi → k (dst + j) ≡ v
  pub outside : (b : ℕ) → (b < dst + lo) ⊎ (dst + hi ≤ b) → k b ≡ m b

first-Filled :
    (m k : Mem) (dst v i hi : ℕ)
    → i < hi
    → Filled (write m (dst + i) v) k dst v (i + 1) hi
    → Filled m k dst v i hi
first-Filled m k dst v i hi below rest = record {
  inside = λ j lo lt. elim (ℕ_discrete i j) [
    | yes here ↦
        let e : dst + j ≡ dst + i = omega arith in
        rw e (rest.outside (dst + i) (omega arith) ∙ write_self m (dst + i) v)
    | no ne ↦ rest.inside j (omega arith) lt
  ];
  outside = λ b h. rest.outside b (omega arith) ∙ write_ne m (dst + i) v b (omega arith);
}

pub fill-Filled :
    (left i hi dst v : ℕ) (m : Mem) → i + left ≡ hi → Filled m (fill left i dst v m) dst v i hi
unfolding fill
fill-Filled zero i hi dst v m e = record {
  inside = λ j lo lt. absurd (omega arith);
  outside = λ b h. refl;
}
fill-Filled (suc left) i hi dst v m e =
    first-Filled m _ dst v i hi (omega arith)
      (fill-Filled left (i + 1) hi dst v (write m (dst + i) v) (omega arith))
