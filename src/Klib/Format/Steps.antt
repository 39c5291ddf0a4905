-- ===== src/Klib/Format/Steps.antt =====
-- The steps of the loop of vsprintf.
use riscv64_cpu.Base.{
  refl, true, false, [], ◌∷◌, List, ℕ, ◌≢◌, ◌%◌, ◌^◌, length, ◌+◌, ◌≤◌, ◌<◌, ◌≡◌, ◌==◌, arith, ◌∙◌,
  ap,
}
use riscv64_cpu.Base.Run.{done}
use riscv64_cpu.Klib.Memory.{Str, ℤ, int_max}
use riscv64_cpu.Klib.Copy.Strings.{Apart}
use riscv64_cpu.Klib.Number.Signed.{IsInt}
use riscv64_cpu.Klib.Format.{
  print_int, print_uint, print_str, Arg, arg_int, arg_str, arg_u64, Output, format_step, directive,
  buf_size,
}
use riscv64_cpu.Klib.Format.Decimals.{int_text, decimal}
use riscv64_cpu.Klib.Format.Pieces.{Readable, Added, put_char-Added}
use riscv64_cpu.Klib.Format.Directives.{print_int-Added, print_str-Added, print_uint-Added}

module _ (out size s n : ℕ) (ho : out ≢ 0) (hs : s ≢ 0) (apart : Apart s buf_size out (size + 1))
    (small : size ≤ int_max) (fuel : 11 < n) where
  abbrev pub Step : ℕ → ℕ → Output → List ℕ → List Arg → Type 0
  Step fmt next o d rest =
      (o' : Output) × (format_step n out s fmt o ≡ done (next, o')) × Added out size s o d rest o'

  pub round_plain :
      (c fmt : ℕ) (o : Output)
      → o.mem fmt ≡ c
      → c ≢ 0
      → c ≢ b'%'
      → o.index + 1 ≤ size
      → Step fmt (fmt + 1) o (c ∷ []) o.args
  unfolding format_step
  round_plain c fmt o e hc hp fits =
      let (o', run, added) = put_char-Added out size s c o hc fits small in
      let test : (o.mem fmt == b'%') ≡ false = ground arith in (o', rw (test, e, run) refl, added)

  pub round_directed :
      (c fmt : ℕ) (o : Output) (d : List ℕ) (rest : List Arg)
      → o.mem fmt ≡ b'%'
      → o.mem (fmt + 1) ≡ c
      → (o' : Output) × (directive n out s c o ≡ done o') × Added out size s o d rest o'
      → Step fmt (fmt + 2) o d rest
  unfolding format_step
  round_directed c fmt o d rest e e' (o', run, added) =
      let test : (o.mem fmt == b'%') ≡ true = ground arith in (o', rw (test, e', run) refl, added)

  pub with_args :
      {o o' : Output} {d : List ℕ} {rest : List Arg}
      → Added out size s o d o.args o'
      → o.args ≡ rest
      → Added out size s o d rest o'
  with_args added e = record {
    index = added.index;
    chars = added.chars;
    kept = added.kept;
    args = added.args ∙ e;
  }

  -- What the directive for `c` adds.
  abbrev pub Directed : ℕ → Output → List ℕ → List Arg → Type 0
  Directed c o d rest =
      (o' : Output) × (directive n out s c o ≡ done o') × Added out size s o d rest o'

  pub wrote_escaped :
      (c : ℕ) (o : Output) (rest : List Arg)
      → c ≢ b'd'
      → c ≢ b's'
      → c ≢ b'u'
      → c ≢ 0
      → o.args ≡ rest
      → o.index + 1 ≤ size
      → Directed c o (c ∷ []) rest
  unfolding directive
  wrote_escaped c o rest nd ns nu hc e fits =
      let (o', run, added) = put_char-Added out size s c o hc fits small in
      let d : (c == b'd') ≡ false = ground arith in
      let s' : (c == b's') ≡ false = ground arith in
      let u : (c == b'u') ≡ false = ground arith in (o', rw (d, s', u) run, with_args added e)

  pub wrote_int :
      (z : ℤ) (o : Output) (rest : List Arg)
      → IsInt z
      → o.args ≡ arg_int z ∷ rest
      → o.index + length (int_text z) ≤ size
      → Directed b'd' o (int_text z) rest
  unfolding directive
  wrote_int z o rest iz e fits =
      let (o', run, added) = print_int-Added out size s n ho hs apart small fuel z rest o iz fits in
      (o', ap (λ a. print_int n out s a o) e ∙ run, added)

  pub wrote_uint :
      (num : ℕ) (o : Output) (rest : List Arg)
      → o.args ≡ arg_u64 num ∷ rest
      → o.index + length (decimal (num % 2 ^ 32)) ≤ size
      → Directed b'u' o (decimal (num % 2 ^ 32)) rest
  unfolding directive
  wrote_uint num o rest e fits =
      let (o', run, added) = print_uint-Added out size s n ho hs apart small fuel num rest o fits in
      (o', ap (λ a. print_uint n out s a o) e ∙ run, added)

  pub wrote_text :
      (p : ℕ) (d : List ℕ) (o : Output) (rest : List Arg)
      → p ≢ 0
      → Str o.mem p d
      → Readable out size s p (length d)
      → o.args ≡ arg_str p ∷ rest
      → o.index + length d ≤ size
      → size < n
      → Directed b's' o d rest
  unfolding directive
  wrote_text p d o rest hp h r e fits few =
      let (o', run, added) =
        print_str-Added out size s n ho hs apart small fuel p d rest o hp h (omega arith) r fits in
      (o', ap (λ a. print_str n out a o) e ∙ run, added)
