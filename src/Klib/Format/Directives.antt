-- ===== src/Klib/Format/Directives.antt =====
-- What each directive of vsprintf adds to the text.
use riscv64_cpu.Base.{◌∷◌, List, ℕ, ◌<◌, ◌≢◌, ◌+◌, ◌⊎◌, ◌≤◌, length, ◌≡◌, arith, ◌%◌, ◌^◌, ◌∙◌}
use riscv64_cpu.Base.Bytes.{Mem}
use riscv64_cpu.Base.Run.{done}
use riscv64_cpu.Klib.Memory.{Str, ℤ, int_max}
use riscv64_cpu.Klib.Copy.Strings.{Apart}
use riscv64_cpu.Klib.Number.Signed.{IsInt, int_to_str_lem}
use riscv64_cpu.Klib.Number.Text.{uint_to_str_lem}
use riscv64_cpu.Klib.Format.{
  Arg, arg_int, arg_str, arg_u64, Output, print_int, print_str, print_uint, clear, buf_size,
  put_str,
}
use riscv64_cpu.Klib.Format.Decimals.{int_text, decimal, IntText-Str, Decimal-Str}
use riscv64_cpu.Klib.Format.Pieces.{Kept, Readable, Added, put_str-Added}

clear-outside : (s b : ℕ) (m : Mem) → (b < s) ⊎ (s + buf_size ≤ b) → clear s m b ≡ m b
unfolding clear
clear-outside s b m h = ground arith

module _ (out size s n : ℕ) (ho : out ≢ 0) (hs : s ≢ 0) (apart : Apart s buf_size out (size + 1))
    (small : size ≤ int_max) (fuel : 11 < n) where
  -- From the buffer to the text.
  buffer-Added :
      (t : List ℕ) (o : Output) (k : Mem) (rest : List Arg)
      → Str k s t
      → length t ≤ 11
      → Kept out size s o.index o.mem k
      → o.index + length t ≤ size
      → (o' : Output) × (put_str n out s (record { index = o.index; mem = k; args = rest })
          ≡ done o')
        × Added out size s o t rest o'
  buffer-Added t o k rest h short kept fits =
      let o1 : Output = record { index = o.index; mem = k; args = rest } in
      let (o', run, added) =
        put_str-Added out size s n s t o1 ho hs h (omega arith) (omega arith) fits small in
      (
        o',
        run,
        record {
          index = added.index;
          chars = added.chars;
          kept = λ b x y. added.kept b x y ∙ kept b x y;
          args = added.args;
        },
      )

  pub print_int-Added :
      (num : ℤ) (rest : List Arg) (o : Output)
      → IsInt num
      → o.index + length (int_text num) ≤ size
      → (o' : Output) × (print_int n out s (arg_int num ∷ rest) o ≡ done o')
        × Added out size s o (int_text num) rest o'
  unfolding print_int
  print_int-Added num rest o int fits =
      let (len, k, short, run, signed) = int_to_str_lem s num (clear s o.mem) hs int in
      let (h, le, le') = IntText-Str k s len num signed.0 short in
      let (o', run', added) =
        buffer-Added (int_text num) o k rest h le
          (λ b x y. signed.1 b (omega arith) ∙ clear-outside s b o.mem y) fits in
      (o', rw run run', added)

  pub print_uint-Added :
      (num : ℕ) (rest : List Arg) (o : Output)
      → o.index + length (decimal (num % 2 ^ 32)) ≤ size
      → (o' : Output) × (print_uint n out s (arg_u64 num ∷ rest) o ≡ done o')
        × Added out size s o (decimal (num % 2 ^ 32)) rest o'
  unfolding print_uint
  print_uint-Added num rest o fits =
      let (len, k, short, run, text, only) =
        uint_to_str_lem s (num % 2 ^ 32) (clear s o.mem) hs (omega arith) in
      let (h, e) = Decimal-Str k s (num % 2 ^ 32) len text short in
      let (o', run', added) =
        buffer-Added (decimal (num % 2 ^ 32)) o k rest h (omega arith)
          (λ b x y. only b (omega arith) ∙ clear-outside s b o.mem y) fits in
      (o', rw run run', added)

  pub print_str-Added :
      (p : ℕ) (t : List ℕ) (rest : List Arg) (o : Output)
      → p ≢ 0
      → Str o.mem p t
      → length t < n
      → Readable out size s p (length t)
      → o.index + length t ≤ size
      → (o' : Output) × (print_str n out (arg_str p ∷ rest) o ≡ done o')
        × Added out size s o t rest o'
  unfolding print_str
  print_str-Added p t rest o hp h lt r fits =
      let o1 : Output = record { index = o.index; mem = o.mem; args = rest } in
      let (o', run, added) = put_str-Added out size s n p t o1 ho hp h lt r.0 fits small in
      (
        o',
        run,
        record { index = added.index; chars = added.chars; kept = added.kept; args = added.args },
      )
