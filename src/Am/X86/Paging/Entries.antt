-- ===== src/Am/X86/Paging/Entries.antt =====
-- Page-table entries: their frames and their flags.
use riscv64_cpu.Base.{
  refl, true, false, inl, inr, ℕ, bit_and, ◌<◌, ◌≡◌, ◌*◌, ◌/◌, ◌^◌, arith, bit_or, ◌%◌, ap, ◌+◌,
  ◌-◌, ◌∙◌, if◌then◌else◌, Bool-cases,
}
use riscv64_cpu.Base.Bits.{bit_and-high, bit_or-high, bit_and_mask, bit_and-zero}
use riscv64_cpu.Am.X86.Paging.{
  baseof, indexof, page_directory, page_table, has, pte_p, pte_u, pte_w, mmap_write,
}

-- A word's frame, and its place in a table.
pub baseof_lem : (w : ℕ) → baseof w ≡ w / 4096 % 2 ^ 20 * 4096
unfolding baseof
baseof_lem w = bit_and-high 12 (2 ^ 20 - 1) w ∙ ap (λ t. t * 4096) (bit_and_mask 20 (w / 4096))

pub indexof_directory : (w : ℕ) → indexof w page_directory ≡ w / 2 ^ 22 % 1024
unfolding indexof
indexof_directory w =
    ap (λ t. t / 2 ^ 22) (bit_and-high 22 1023 w) ∙ omega (arith, bit_and_mask 10 (w / 2 ^ 22))

pub indexof_table : (w : ℕ) → indexof w page_table ≡ w / 4096 % 1024
unfolding indexof
indexof_table w =
    ap (λ t. t / 2 ^ 12) (bit_and-high 12 1023 w) ∙ omega (arith, bit_and_mask 10 (w / 4096))

pub indexof_root : (w : ℕ) → indexof w (record { mask = 0; shift = 0; bits = 0 }) ≡ 0
unfolding indexof
indexof_root w = ap (λ t. t / 2 ^ 0) (bit_and-zero w)

-- The frame that an entry names.
abbrev pub frame : ℕ → ℕ
frame w = w / 4096 % 2 ^ 20

pub has-present : (w : ℕ) → w % 2 ≡ 1 → has w pte_p ≡ true
has-present w h = let e : bit_and w 1 ≡ 1 = bit_and_mask 1 w ∙ h in rw e refl

pub has-absent : (w : ℕ) → w % 2 ≡ 0 → has w pte_p ≡ false
has-absent w h = let e : bit_and w 1 ≡ 0 = bit_and_mask 1 w ∙ h in rw e refl

pub present_or : (q : ℕ) → bit_or (q * 4096) pte_p ≡ q * 4096 + 1
present_or q =
    let e : q * 4096 ≡ q * 4096 + 0 = omega arith in
    ap (λ t. bit_or t 1) e ∙ bit_or-high 12 q 0 1 (omega arith) (omega arith)

-- The entry of a new table.
pub table_entry : (q : ℕ) → bit_or (bit_or (q * 4096) pte_p) (bit_or pte_w pte_u) ≡ q * 4096 + 7
table_entry q = rw (present_or q) (bit_or-high 12 q 1 6 (omega arith) (omega arith))

-- The entry of a page.
pub page_entry :
    (q prot : ℕ)
    → (f : ℕ) × (f < 4096)
      × (f % 2 ≡ 1)
      × (bit_or (bit_or (bit_or (q * 4096) pte_p) pte_u) (if has prot mmap_write then pte_w else 0)
          ≡ q * 4096 + f)
page_entry q prot =
    let five = bit_or-high 12 q 1 4 (omega arith) (omega arith) in
    elim (Bool-cases (has prot mmap_write)) [
      | inl w ↦ (
        7,
        omega arith,
        refl,
        rw (w, present_or q, five) (bit_or-high 12 q 5 2 (omega arith) (omega arith)),
      )
      | inr w ↦ (
        5,
        omega arith,
        refl,
        rw (w, present_or q, five) (bit_or-high 12 q 5 0 (omega arith) (omega arith)),
      )
    ]

pub frame-entry : (q f : ℕ) → q < 2 ^ 20 → f < 4096 → frame (q * 4096 + f) ≡ q
frame-entry q f hq hf = omega arith
