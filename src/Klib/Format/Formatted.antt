-- ===== src/Klib/Format/Formatted.antt =====
-- vsprintf against a relation between a format, its arguments and the text.
use riscv64_cpu.Base.{
  zero, refl, true, suc, false, [], ◌∷◌, List, ℕ, ◌≢◌, ◌++◌, ◌%◌, ◌^◌, length, ◌+◌, ◌≤◌, ◌<◌, ◌≡◌,
  ◌==◌, arith, length-append, ◌∙◌, sym, ap, ltb,
}
use riscv64_cpu.Base.Bytes.{Mem, write, write_self, write_ne}
use riscv64_cpu.Base.Run.{done}
use riscv64_cpu.Klib.Memory.{Str, ℤ, int_max}
use riscv64_cpu.Klib.Copy.Strings.{Apart}
use riscv64_cpu.Klib.Number.Signed.{IsInt}
use riscv64_cpu.Klib.Format.{
  Arg, arg_int, arg_str, arg_u64, Output, format_loop, buf_size, vsprintf, printf, put_chars, clear,
}
use riscv64_cpu.Klib.Format.Decimals.{int_text, decimal}
use riscv64_cpu.Klib.Format.Pieces.{
  Kept, Readable, Chars, Chars-append, Readable-Str, Chars-same, Chars-Str,
}
use riscv64_cpu.Klib.Format.Steps.{
  Step, round_plain, with_args, round_directed, wrote_escaped, wrote_int, wrote_uint, wrote_text,
}

-- The text of a format and its arguments: `%d`, `%u` and `%s` take an argument, `%` before any other
-- character gives that character, and other characters stand for themselves. The strings are
-- read in the memory `m`, apart from the places `Safe` leaves out.
pub data Formats (m : Mem) (Safe : ℕ → ℕ → Type 0) : List ℕ → List Arg → List ℕ → Type 0 where
  ends : {rest : List Arg} → Formats m Safe [] rest []
  plain :
      {c : ℕ} {fs t : List ℕ} {rest : List Arg}
      → c ≢ b'%'
      → Formats m Safe fs rest t
      → Formats m Safe (c ∷ fs) rest (c ∷ t)
  escaped :
      {c : ℕ} {fs t : List ℕ} {rest : List Arg}
      → c ≢ b'd'
      → c ≢ b's'
      → c ≢ b'u'
      → Formats m Safe fs rest t
      → Formats m Safe (b'%' ∷ c ∷ fs) rest (c ∷ t)
  int :
      {z : ℤ} {fs : List ℕ} {rest : List Arg} (t : List ℕ)
      → IsInt z
      → Formats m Safe fs rest t
      → Formats m Safe (b'%' ∷ b'd' ∷ fs) (arg_int z ∷ rest) (int_text z ++ t)
  uint :
      {num : ℕ} {fs : List ℕ} {rest : List Arg} (t : List ℕ)
      → Formats m Safe fs rest t
      → Formats m Safe (b'%' ∷ b'u' ∷ fs) (arg_u64 num ∷ rest) (decimal (num % 2 ^ 32) ++ t)
  str :
      {p : ℕ} {fs : List ℕ} {rest : List Arg} (d t : List ℕ)
      → p ≢ 0
      → Str m p d
      → Safe p (length d)
      → Formats m Safe fs rest t
      → Formats m Safe (b'%' ∷ b's' ∷ fs) (arg_str p ∷ rest) (d ++ t)

module _ (out size s n : ℕ) (ho : out ≢ 0) (hs : s ≢ 0) (apart : Apart s buf_size out (size + 1))
    (small : size ≤ int_max) (fuel : 11 < n) (m0 : Mem) where
  -- One step, whose text is followed by that of the rest of the format.
  abbrev Loop : ℕ → ℕ → Output → List ℕ → Type 0
  Loop left fmt o t =
      (o' : Output) × (format_loop left n out s fmt o ≡ done o')
      × (o'.index ≡ o.index + length t)
      × Chars o'.mem (out + o.index) t
      × Kept out size s o.index o.mem o'.mem

  then_ :
      (left fmt next : ℕ) (o : Output) (d t : List ℕ) (rest : List Arg)
      → o.mem fmt ≢ 0
      → (step : Step out size s n ho hs apart small fuel fmt next o d rest)
      → o.index + length (d ++ t) ≤ size
      → ((o' : Output)
          → o'.index ≡ o.index + length d
          → Kept out size s o.index o.mem o'.mem
          → o'.args ≡ rest
          → Loop left next o' t)
      → Loop (suc left) fmt o (d ++ t)
  unfolding format_loop
  then_ left fmt next o d t rest here (o1, run, added) fits continue =
      let (o2, run', index, chars, kept) = continue o1 added.index added.kept added.args in
      let test : (o.mem fmt == 0) ≡ false = ground arith in
      let place : out + o1.index ≡ out + o.index + length d = omega (arith, added.index) in
      (
        o2,
        rw (test, run) run',
        omega (arith, index, added.index, length-append d t),
        Chars-append o2.mem (out + o.index) d t
            (Chars-same o1.mem o2.mem (out + o.index) d
              (λ b lo hi. kept b (omega (arith, added.index)) (omega (arith, length-append d t)))
              added.chars)
            (rw place at chars),
        λ b x y. kept b (omega (arith, added.index)) y ∙ added.kept b x y,
      )

  abbrev Fs : List ℕ → List Arg → List ℕ → Type 0
  Fs = Formats m0 (Readable out size s)

  -- Where the loop stands: at a format that is still to be read, with its arguments.
  record At (left fmt : ℕ) (fs : List ℕ) (rest : List Arg) (o : Output) : Type 0 where
    pub enough : length fs < left
    pub format : Str m0 fmt fs
    pub apart_ : Readable out size s fmt (length fs)
    pub kept : Kept out size s 0 m0 o.mem
    pub args : o.args ≡ rest

  there :
      {left fmt : ℕ} {fs : List ℕ} {rest : List Arg} {o : Output}
      → At left fmt fs rest o
      → Str o.mem fmt fs
  there {fmt = fmt} {fs = fs} {o = o} a =
      Readable-Str out size s m0 o.mem fmt fs a.apart_ a.kept a.format

  after_one :
      {left fmt c : ℕ} {fs : List ℕ} {rest rest' : List Arg} {o : Output} (o1 : Output)
      → At (suc left) fmt (c ∷ fs) rest o
      → Kept out size s o.index o.mem o1.mem
      → o1.args ≡ rest'
      → At left (fmt + 1) fs rest' o1
  after_one o1 a kept e = record {
    enough = omega (arith, a.enough);
    format = a.format.2;
    apart_ = (omega (arith, a.apart_.0), omega (arith, a.apart_.1));
    kept = λ b x y. kept b (omega arith) y ∙ a.kept b x y;
    args = e;
  }

  after_two :
      {left fmt c c' : ℕ} {fs : List ℕ} {rest rest' : List Arg} {o : Output} (o1 : Output)
      → At (suc left) fmt (c ∷ c' ∷ fs) rest o
      → Kept out size s o.index o.mem o1.mem
      → o1.args ≡ rest'
      → At left (fmt + 2) fs rest' o1
  after_two {fmt = fmt} o1 a kept e = record {
    enough = omega (arith, a.enough);
    format = let f : fmt + 1 + 1 ≡ fmt + 2 = omega arith in rw f at a.format.2.2;
    apart_ = (omega (arith, a.apart_.0), omega (arith, a.apart_.1));
    kept = λ b x y. kept b (omega arith) y ∙ a.kept b x y;
    args = e;
  }

  format_loop_lem :
      (left fmt : ℕ) (fs t : List ℕ) (rest : List Arg) (o : Output)
      → At left fmt fs rest o
      → o.index + length t ≤ size
      → size < n
      → Fs fs rest t
      → Loop left fmt o t
  unfolding format_loop
  format_loop_lem zero fmt fs t rest o a fits few f = absurd (omega (arith, a.enough))
  format_loop_lem (suc left) fmt [] t rest o a fits few ends =
      let end : o.mem fmt ≡ 0 = Readable-Str out size s m0 o.mem fmt [] a.apart_ a.kept a.format in
      let test : (o.mem fmt == 0) ≡ true = ground arith in
      (o, rw test refl, omega arith, tt, λ b x y. refl)
  format_loop_lem (suc left) fmt (c ∷ fs) _ rest o a fits few (plain {t = u} nc f) =
      let h = there a in
      then_ left fmt (fmt + 1) o (c ∷ []) u rest (λ z. h.1 (sym h.0 ∙ z))
        (let (o', run, added) =
            round_plain out size s n ho hs apart small fuel c fmt o h.0 h.1 nc (omega arith) in
          (o', run, with_args out size s n ho hs apart small fuel added a.args))
        fits
        (λ o1 i kept e.
          format_loop_lem left (fmt + 1) fs u rest o1 (after_one o1 a kept e) (omega (arith, i)) few
            f)
  format_loop_lem (suc left) fmt _ _ rest o a fits few
        (escaped {c = c} {fs = fs} {t = u} nd ns nu f) =
      let h = there a in
      then_ left fmt (fmt + 2) o (c ∷ []) u rest (omega (arith, h.0))
        (round_directed out size s n ho hs apart small fuel c fmt o (c ∷ []) rest h.0 h.2.0 (
          wrote_escaped out size s n ho hs apart small fuel c o rest nd ns nu h.2.1 a.args
            (omega arith)))
        fits
        (λ o1 i kept e.
          format_loop_lem left (fmt + 2) fs u rest o1 (after_two o1 a kept e) (omega (arith, i)) few
            f)
  format_loop_lem (suc left) fmt _ _ _ o a fits few (int {z = z} {fs = fs} {rest = rest} u iz f) =
      let h = there a in
      let fits' = length-append (int_text z) u in
      then_ left fmt (fmt + 2) o (int_text z) u rest (omega (arith, h.0))
        (round_directed out size s n ho hs apart small fuel b'd' fmt o (int_text z) rest h.0 h.2.0
          (wrote_int out size s n ho hs apart small fuel z o rest iz a.args (omega (arith, fits'))))
        fits
        (λ o1 i kept e.
          format_loop_lem left (fmt + 2) fs u rest o1 (after_two o1 a kept e)
            (omega (arith, i, fits')) few f)
  format_loop_lem (suc left) fmt _ _ _ o a fits few (uint {num = num} {fs = fs} {rest = rest} u f) =
      let h = there a in
      let d = decimal (num % 2 ^ 32) in
      let fits' = length-append d u in
      then_ left fmt (fmt + 2) o d u rest (omega (arith, h.0))
        (round_directed out size s n ho hs apart small fuel b'u' fmt o d rest h.0 h.2.0
          (wrote_uint out size s n ho hs apart small fuel num o rest a.args (omega (arith, fits'))))
        fits
        (λ o1 i kept e.
          format_loop_lem left (fmt + 2) fs u rest o1 (after_two o1 a kept e)
            (omega (arith, i, fits')) few f)
  format_loop_lem (suc left) fmt _ _ _ o a fits few
        (str {p = p} {fs = fs} {rest = rest} d u np hd safe f) =
      let h = there a in
      let fits' = length-append d u in
      then_ left fmt (fmt + 2) o d u rest (omega (arith, h.0))
        (round_directed out size s n ho hs apart small fuel b's' fmt o d rest h.0 h.2.0 (
          wrote_text out size s n ho hs apart small fuel p d o rest np
            (Readable-Str out size s m0 o.mem p d safe a.kept hd) safe a.args (omega (arith, fits'))
            few))
        fits
        (λ o1 i kept e.
          format_loop_lem left (fmt + 2) fs u rest o1 (after_two o1 a kept e)
            (omega (arith, i, fits')) few f)

-- If the format and its arguments have the text `t`, and the format, the strings, the text and the
-- directives' buffer are apart, vsprintf with fuel above 11 and the lengths returns the length of
-- the text, leaves it at `out`, and changes no other byte but the buffer's.
pub vsprintf_lem :
    (n out s fmt : ℕ) (fs t : List ℕ) (rest : List Arg) (m : Mem)
    → out ≢ 0
    → s ≢ 0
    → Apart s buf_size out (length t + 1)
    → length t ≤ int_max
    → 11 < n
    → length t < n
    → length fs < n
    → Str m fmt fs
    → Readable out (length t) s fmt (length fs)
    → Formats m (Readable out (length t) s) fs rest t
    → (k : Mem) × (vsprintf n out s fmt rest m ≡ done (length t, k))
      × Str k out t
      × Kept out (length t) s 0 m k
unfolding vsprintf
vsprintf_lem n out s fmt fs t rest m ho hs apart small fuel few enough h r f =
    let o : Output = record { index = 0; mem = m; args = rest } in
    let at : At out (length t) s n ho hs apart small fuel m n fmt fs rest o = record {
      enough = enough;
      format = h;
      apart_ = r;
      kept = λ b x y. refl;
      args = refl;
    } in
    let (o', run, index, chars, kept) =
      format_loop_lem out (length t) s n ho hs apart small fuel m n fmt fs t rest o at (omega arith)
        few f in
    let idx : o'.index ≡ length t = omega (arith, index) in
    let k = write o'.mem (out + o'.index) 0 in
    let e : out + 0 ≡ out = omega arith in
    let end : k (out + length t) ≡ 0 =
      ap (λ i. k (out + i)) (sym idx) ∙ write_self o'.mem (out + o'.index) 0 in
    (
      k,
      rw run (ap (λ i. done (i, k)) idx),
      Chars-Str k out t
          (Chars-same o'.mem k out t
            (λ b lo hi. write_ne o'.mem (out + o'.index) 0 b (omega (arith, idx))) (rw e at chars))
          end,
      λ b x y. write_ne o'.mem (out + o'.index) 0 b (omega (arith, idx)) ∙ kept b x y,
    )

put_chars-Chars : (t : List ℕ) (p : ℕ) (m : Mem) → Str m p t → put_chars (length t) p m ≡ t
unfolding put_chars
put_chars-Chars [] p m h = refl
put_chars-Chars (c ∷ cs) p m h = rw (h.0, put_chars-Chars cs (p + 1) m h.2) refl

-- If the text fits printf's buffer with its end, and the format, the strings and the buffers are
-- apart, printf with enough fuel prints the text and returns its length.
pub printf_lem :
    (n out s fmt : ℕ) (fs t : List ℕ) (rest : List Arg) (m : Mem)
    → out ≢ 0
    → s ≢ 0
    → Apart s buf_size out (length t + 1)
    → length t < buf_size
    → buf_size ≤ n
    → length fs < n
    → Str (clear out m) fmt fs
    → Readable out (length t) s fmt (length fs)
    → Formats (clear out m) (Readable out (length t) s) fs rest t
    → printf n out s fmt rest m ≡ done (length t, t)
unfolding printf
printf_lem n out s fmt fs t rest m ho hs apart fits few enough h r f =
    let (k, run, text, kept) =
      vsprintf_lem n out s fmt fs t rest (clear out m) ho hs apart (omega arith) (omega arith)
        (omega arith) enough h r f in
    let test : ltb (length t) buf_size ≡ true = ground arith in
    rw (run, test, put_chars-Chars t out k text) refl
