-- ===== src/Klib/Format/Pieces.antt =====
-- What one character or directive of the format writes.
use riscv64_cpu.Base.{
  suc, refl, [], ◌∷◌, true, List, ℕ, length, ◌+◌, ◌<◌, ◌≡◌, ◌≢◌, ◌≤◌, arith, leb, ◌++◌, ◌⊎◌,
  leb-true,
}
use riscv64_cpu.Base.Bytes.{Mem, write, write_self, write_ne}
use riscv64_cpu.Base.Run.{done}
use riscv64_cpu.Klib.Memory.{Str, Str-same, strlen_lem, int_max}
use riscv64_cpu.Klib.Copy.Strings.{Apart, strcpy_lem}
use riscv64_cpu.Klib.Format.{Output, put_char, put_str, buf_size, Arg}

-- The characters of a text in memory, of which none ends a string.
abbrev pub Chars : Mem → ℕ → List ℕ → Type 0
Chars m p [] = Unit {0}
Chars m p (c ∷ cs) = (m p ≡ c) × (c ≢ 0) × Chars m (p + 1) cs

pub Chars-same :
    (m k : Mem) (p : ℕ) (t : List ℕ)
    → ((b : ℕ) → p ≤ b → b < p + length t → k b ≡ m b)
    → Chars m p t
    → Chars k p t
Chars-same m k p [] same h = tt
Chars-same m k p (c ∷ cs) same h = (
  omega (arith, same p (omega arith) (omega arith)),
  h.1,
  Chars-same m k (p + 1) cs (λ b lo hi. same b (omega arith) (omega arith)) h.2,
)

pub Str-Chars : (m : Mem) (p : ℕ) (t : List ℕ) → Str m p t → Chars m p t
Str-Chars m p [] h = tt
Str-Chars m p (c ∷ cs) h = (h.0, h.1, Str-Chars m (p + 1) cs h.2)

pub Chars-Str : (m : Mem) (p : ℕ) (t : List ℕ) → Chars m p t → m (p + length t) ≡ 0 → Str m p t
Chars-Str m p [] h end = let e : p + 0 ≡ p = omega arith in rw e at end
Chars-Str m p (c ∷ cs) h end = (
  h.0,
  h.1,
  Chars-Str m (p + 1) cs h.2
      (let e : p + suc (length cs) ≡ p + 1 + length cs = omega arith in rw e at end),
)

pub Chars-append :
    (m : Mem) (p : ℕ) (t u : List ℕ) → Chars m p t → Chars m (p + length t) u → Chars m p (t ++ u)
Chars-append m p [] u h g = let e : p + 0 ≡ p = omega arith in rw e at g
Chars-append m p (c ∷ cs) u h g = (
  h.0,
  h.1,
  Chars-append m (p + 1) cs u h.2
      (let e : p + suc (length cs) ≡ p + 1 + length cs = omega arith in rw e at g),
)

-- The text stands at `out`, with `size` characters and its end; the buffer of a directive at `s`.
module _ (out size s : ℕ) where
  -- What may have changed: the buffer, and the text from the index `i` on.
  abbrev pub Kept : ℕ → Mem → Mem → Type 0
  Kept i m k = (b : ℕ) → (b < out + i) ⊎ (out + size < b) → (b < s) ⊎ (s + buf_size ≤ b) → k b ≡ m b

  -- A string of `n` characters apart from both.
  abbrev pub Readable : ℕ → ℕ → Type 0
  Readable p n = Apart p (n + 1) out (size + 1) × Apart p (n + 1) s buf_size

  pub Readable-Str :
      (m k : Mem) (p : ℕ) (t : List ℕ) → Readable p (length t) → Kept 0 m k → Str m p t → Str k p t
  Readable-Str m k p t r kept =
      Str-same m k p t (λ b lo hi. kept b (omega (arith, r.0)) (omega (arith, r.1)))

  -- An output to which the text `d` was added.
  pub record Added (o : Output) (d : List ℕ) (left : List Arg) (o' : Output) : Type 0 where
    pub index : o'.index ≡ o.index + length d
    pub chars : Chars o'.mem (out + o.index) d
    pub kept : Kept o.index o.mem o'.mem
    pub args : o'.args ≡ left

  pub put_char-Added :
      (c : ℕ) (o : Output)
      → c ≢ 0
      → o.index + 1 ≤ size
      → size ≤ int_max
      → (o' : Output) × (put_char out c o ≡ done o') × Added o (c ∷ []) o.args o'
  unfolding put_char
  put_char-Added c o hc fits small =
      let test : leb (o.index + 1) int_max ≡ true = leb-true _ _ (omega arith) in
      let o' : Output = record {
        index = o.index + 1;
        mem = write o.mem (out + o.index) c;
        args = o.args;
      } in
      (
        o',
        rw test refl,
        record {
          index = refl;
          chars = (write_self o.mem (out + o.index) c, hc, tt);
          kept = λ b h g. write_ne o.mem (out + o.index) c b (omega arith);
          args = refl;
        },
      )

  -- A string that stands apart from the text.
  pub put_str-Added :
      (n src : ℕ) (d : List ℕ) (o : Output)
      → out ≢ 0
      → src ≢ 0
      → Str o.mem src d
      → length d < n
      → Apart src (length d + 1) out (size + 1)
      → o.index + length d ≤ size
      → size ≤ int_max
      → (o' : Output) × (put_str n out src o ≡ done o') × Added o d o.args o'
  unfolding put_str
  put_str-Added n src d o ho hs h lt apart fits small =
      let (m, run, copied) =
        strcpy_lem n (out + o.index) src d o.mem (omega arith) hs h lt (omega arith) in
      let test : leb (o.index + length d) int_max ≡ true = leb-true _ _ (omega arith) in
      let o' : Output = record { index = o.index + length d; mem = m; args = o.args } in
      (
        o',
        rw (run, strlen_lem n m src d copied.original lt, test) refl,
        record {
          index = refl;
          chars = Str-Chars m (out + o.index) d copied.copy;
          kept = λ b h g. copied.outside b (omega arith);
          args = refl;
        },
      )
