-- ===== src/Klib/Copy/Strings.antt =====
-- `strcpy`, `strcat` and `strncpy`.
use riscv64_cpu.Base.{
  zero, suc, refl, ap, ℕ, ◌+◌, ◌≤◌, ◌<◌, ◌≡◌, ◌≢◌, ◌⊎◌, ◌∙◌, arith, List, [], ◌∷◌, length, ◌==◌,
  false, ◌++◌, ◌-◌, true,
}
use riscv64_cpu.Klib.Copy.Blocks.{fill-Filled, Copied, copy_up-Copied}
use riscv64_cpu.Base.Bytes.{Mem, write, write_self, write_ne}
use riscv64_cpu.Base.Run.{done}
use riscv64_cpu.Klib.Memory.{Str, Str-same, strlen_lem}
use riscv64_cpu.Klib.Copy.{copy_up, strcpy, strcat, strcat_loop, strncpy, strncpy_loop}
use native.Mathlib.Decide.{ℕ_discrete}

-- No byte of the `n` at `p` is one of the `k` at `q`.
abbrev pub Apart : (p n q k : ℕ) → Type 0
Apart p n q k = (p + n ≤ q) ⊎ (q + k ≤ p)

-- A string whose characters and zero stand at another place too.
pub Str-moved :
    (m k : Mem) (src dst : ℕ) (s : List ℕ)
    → ((j : ℕ) → j < length s → k (dst + j) ≡ m (src + j))
    → k (dst + length s) ≡ 0
    → Str m src s
    → Str k dst s
Str-moved m k src dst [] same end h = let e : dst ≡ dst + 0 = omega arith in rw e end
Str-moved m k src dst (x ∷ xs) same end h = (
  let e : dst ≡ dst + 0 = omega arith in
      let f : src + 0 ≡ src = omega arith in
      let first : k (dst + 0) ≡ m src = rw f at (same 0 (omega arith)) in rw e (first ∙ h.0),
  h.1,
  Str-moved m k (src + 1) (dst + 1) xs
      (λ j lt.
        let e : dst + 1 + j ≡ dst + suc j = omega arith in
        let f : src + 1 + j ≡ src + suc j = omega arith in rw (e, f) (same (suc j) (omega arith)))
      (let e : dst + 1 + length xs ≡ dst + suc (length xs) = omega arith in rw e end) h.2,
)

-- What a copied string leaves in memory: the string at both places, and nothing else changed.
pub record StrCopied (m k : Mem) (dst src : ℕ) (s : List ℕ) : Type 0 where
  pub copy : Str k dst s
  pub original : Str k src s
  pub outside : (b : ℕ) → (b < dst) ⊎ (dst + length s < b) → k b ≡ m b

StrCopied-of :
    (m k : Mem) (dst src : ℕ) (s : List ℕ)
    → Str m src s
    → Apart dst (length s + 1) src (length s + 1)
    → Copied m k dst src 0 (length s)
    → StrCopied m (write k (dst + length s) 0) dst src s
StrCopied-of m k dst src s h apart c =
    let outside : (b : ℕ) → (b < dst) ⊎ (dst + length s < b) → write k (dst + length s) 0 b ≡ m b =
      λ b o. write_ne k (dst + length s) 0 b (omega arith) ∙ c.outside b (omega arith) in
    record {
      copy =
          Str-moved m (write k (dst + length s) 0) src dst s
            (λ j lt.
              write_ne k (dst + length s) 0 (dst + j) (omega arith) ∙ c.inside j (omega arith) lt)
            (write_self k (dst + length s) 0) h;
      original =
          Str-same m (write k (dst + length s) 0) src s (λ b lo hi. outside b (omega arith)) h;
      outside = outside;
    }

-- `strcpy` of a string to a place that does not overlap it copies the string and writes no other
-- byte; it returns the destination.
pub strcpy_lem :
    (fuel dst src : ℕ) (s : List ℕ) (m : Mem)
    → dst ≢ 0
    → src ≢ 0
    → Str m src s
    → length s < fuel
    → Apart dst (length s + 1) src (length s + 1)
    → (m' : Mem) × (strcpy fuel dst src m ≡ done (dst, m')) × StrCopied m m' dst src s
unfolding strcpy
strcpy_lem fuel dst src s m hd hs h lt apart = (
  write (copy_up (length s) 0 dst src m) (dst + length s) 0,
  let d : (dst == 0) ≡ false = ground arith in
      let e : (src == 0) ≡ false = ground arith in rw (d, e, strlen_lem fuel m src s h lt),
  StrCopied-of m (copy_up (length s) 0 dst src m) dst src s h apart
      (copy_up-Copied (length s) 0 (length s) dst src m (omega arith) (omega arith)),
)

-- Characters that stay, before a string that follows them.
Str-join :
    (m k : Mem) (p : ℕ) (d s : List ℕ)
    → Str m p d
    → ((b : ℕ) → p ≤ b → b < p + length d → k b ≡ m b)
    → Str k (p + length d) s
    → Str k p (d ++ s)
Str-join m k p [] s h same t = let e : p ≡ p + 0 = omega arith in rw e t
Str-join m k p (x ∷ xs) s h same t = (
  same p (omega arith) (omega arith) ∙ h.0,
  h.1,
  Str-join m k (p + 1) xs s h.2 (λ b lo hi. same b (omega arith) (omega arith))
      (let e : p + 1 + length xs ≡ p + suc (length xs) = omega arith in rw e t),
)

-- The loop of `strcat` copies the characters up, and then writes the zero.
strcat_loop-copy_up :
    (fuel i end src : ℕ) (s : List ℕ) (m : Mem)
    → Str m (src + i) s
    → length s < fuel
    → Apart (end + i) (length s + 1) (src + i) (length s + 1)
    → strcat_loop fuel i end src m
      ≡ done (write (copy_up (length s) i end src m) (end + i + length s) 0)
unfolding strcat_loop copy_up
strcat_loop-copy_up zero i end src s m h lt apart = absurd (omega arith)
strcat_loop-copy_up (suc fuel) i end src [] m h lt apart =
    let e : end + i + 0 ≡ end + i = omega arith in
    let stop : (m (src + i) == 0) ≡ true = ground arith in rw (e, stop)
strcat_loop-copy_up (suc fuel) i end src (x ∷ xs) m h lt apart =
    let e : end + i + suc (length xs) ≡ end + (i + 1) + length xs = omega arith in
    let f : src + (i + 1) ≡ src + i + 1 = omega arith in
    let go_on : (m (src + i) == 0) ≡ false = ground arith in
    let m1 = write m (end + i) (m (src + i)) in
    let next : Str m1 (src + (i + 1)) xs = rw f (
      Str-same m m1 (src + i + 1) xs (λ b lo hi. write_ne m (end + i) (m (src + i)) b (omega arith))
        h.2) in
    rw (e, go_on) (strcat_loop-copy_up fuel (i + 1) end src xs m1 next (omega arith) (omega arith))

-- `strcat` of a string that does not overlap the room for the result leaves both strings' characters
-- at the destination, the source as it was, and writes no other byte; it returns the destination.
strcat_lem :
    (fuel dst src : ℕ) (d s : List ℕ) (m : Mem)
    → Str m dst d
    → Str m src s
    → length d < fuel
    → length s < fuel
    → Apart dst (length d + length s + 1) src (length s + 1)
    → (m' : Mem) × (strcat fuel dst src m ≡ done (dst, m'))
      × Str m' dst (d ++ s)
      × Str m' src s
      × ((b : ℕ) → (b < dst + length d) ⊎ (dst + length d + length s < b) → m' b ≡ m b)
unfolding strcat
strcat_lem fuel dst src d s m hd hs fd fs apart =
    let end : ℕ = dst + length d in
    let m' = write (copy_up (length s) 0 end src m) (end + length s) 0 in
    let copied =
      StrCopied-of m (copy_up (length s) 0 end src m) end src s hs (omega arith)
        (copy_up-Copied (length s) 0 (length s) end src m (omega arith) (omega arith)) in
    let e : src + 0 ≡ src = omega arith in
    let f : end + 0 + length s ≡ end + length s = omega arith in
    let looped : strcat_loop fuel 0 end src m ≡ done m' =
      strcat_loop-copy_up fuel 0 end src s m (rw e hs) fs (omega arith)
      ∙ ap (λ a. done (write (copy_up (length s) 0 end src m) a 0)) f in
    (
      m',
      rw (strlen_lem fuel m dst d hd fd, looped),
      Str-join m m' dst d s hd (λ b lo hi. copied.outside b (omega arith)) copied.copy,
      copied.original,
      copied.outside,
    )

-- The bytes `lo` to `hi` at `dst`: those at `src` below the index `len`, and zeros from it on.
pub record Padded (m k : Mem) (dst src len lo hi : ℕ) : Type 0 where
  pub copied : (j : ℕ) → lo ≤ j → j < hi → j < len → k (dst + j) ≡ m (src + j)
  pub zeros : (j : ℕ) → lo ≤ j → j < hi → len ≤ j → k (dst + j) ≡ 0
  pub outside : (b : ℕ) → (b < dst + lo) ⊎ (dst + hi ≤ b) → k b ≡ m b

first-Padded :
    (m k : Mem) (dst src len i hi : ℕ)
    → i < hi
    → i < len
    → Apart (dst + i) (hi - i) (src + i) (len - i)
    → Padded (write m (dst + i) (m (src + i))) k dst src len (i + 1) hi
    → Padded m k dst src len i hi
first-Padded m k dst src len i hi below short apart rest = record {
  copied = λ j lo lt short'. elim (ℕ_discrete i j) [
    | yes here ↦
        let e : dst + j ≡ dst + i = omega arith in
        let f : src + j ≡ src + i = omega arith in
        rw (e, f) (rest.outside (dst + i) (omega arith) ∙ write_self m (dst + i) (m (src + i)))
    | no ne ↦
        rest.copied j (omega arith) lt short'
        ∙ write_ne m (dst + i) (m (src + i)) (src + j) (omega arith)
  ];
  zeros = λ j lo lt long. rest.zeros j (omega arith) lt long;
  outside =
      λ b h. rest.outside b (omega arith) ∙ write_ne m (dst + i) (m (src + i)) b (omega arith);
}

strncpy_loop-Padded :
    (left i hi dst src : ℕ) (s : List ℕ) (m : Mem)
    → i + left ≡ hi
    → Str m (src + i) s
    → Apart (dst + i) left (src + i) (length s + 1)
    → Padded m (strncpy_loop left i dst src m) dst src (i + length s) i hi
unfolding strncpy_loop
strncpy_loop-Padded zero i hi dst src s m e h apart = record {
  copied = λ j lo lt short. absurd (omega arith);
  zeros = λ j lo lt long. absurd (omega arith);
  outside = λ b o. refl;
}
strncpy_loop-Padded (suc left) i hi dst src [] m e h apart =
    let stop : (m (src + i) == 0) ≡ true = ground arith in
    let filled = fill-Filled (suc left) i hi dst 0 m e in
    rw stop (record {
      copied = λ j lo lt short. absurd (omega arith);
      zeros = λ j lo lt long. filled.inside j lo lt;
      outside = filled.outside;
    })
strncpy_loop-Padded (suc left) i hi dst src (x ∷ xs) m e h apart =
    let go_on : (m (src + i) == 0) ≡ false = ground arith in
    let len : i + suc (length xs) ≡ i + 1 + length xs = omega arith in
    let f : src + (i + 1) ≡ src + i + 1 = omega arith in
    let m1 = write m (dst + i) (m (src + i)) in
    let next : Str m1 (src + (i + 1)) xs = rw f (
      Str-same m m1 (src + i + 1) xs (λ b lo up. write_ne m (dst + i) (m (src + i)) b (omega arith))
        h.2) in
    rw (go_on, len)
      (first-Padded m _ dst src (i + 1 + length xs) i hi (omega arith) (omega arith) (omega arith)
        (strncpy_loop-Padded left (i + 1) hi dst src xs m1 (omega arith) next (omega arith)))

-- `strncpy` writes exactly `n` bytes, where they do not overlap the source: the characters of the
-- string as far as they go, and zeros behind them; it returns the destination.
pub strncpy_lem :
    (dst src n : ℕ) (s : List ℕ) (m : Mem)
    → Str m src s
    → Apart dst n src (length s + 1)
    → ((strncpy dst src n m).0 ≡ dst) × Padded m (strncpy dst src n m).1 dst src (length s) 0 n
unfolding strncpy
strncpy_lem dst src n s m h apart =
    let e : src + 0 ≡ src = omega arith in
    let z : 0 + length s ≡ length s = omega arith in
    let padded = strncpy_loop-Padded n 0 n dst src s m (omega arith) (rw e h) (omega arith) in
    (refl, rw z at padded)
