-- ===== src/Am/X86/Paging/Tests.antt =====
-- Page tables with an allocator that gives out the pages one after the other.
use riscv64_cpu.Base.{
  none, some, refl, inl, inr, false, Bool-cases, arith, if◌then◌else◌, ℕ, ◌*◌, ◌≡◌, ltb, ◌<◌, ◌==◌,
  ◌∙◌, ◌≤◌, ap, sym, ◌%◌, ◌+◌, ◌⊎◌, ◌^◌, ◌/◌, ◌≢◌,
}
use riscv64_cpu.Am.X86.Paging.{Allocator, Tables, map, mmap_none, pgsize, entry}
use riscv64_cpu.Am.X86.Paging.Translation.{IsAllocator, IsSpace, translate}
use riscv64_cpu.Am.X86.Paging.Mapping.{IsUserPage}
use riscv64_cpu.Am.X86.Paging.Maps.{map_lem, unmap_lem}
use riscv64_cpu.Base.Run.{done, exit}
use native.Mathlib.Decide.{ℕ_discrete}

abbrev in_order : Allocator
in_order = record {
  H = ℕ;
  pgalloc =
      λ size last. if ltb (last + 1) (2 ^ 20) then ((last + 1) * 4096, last + 1) else (0, last);
  pgfree = λ p last. last;
}

abbrev Taken : ℕ → ℕ → Type 0
Taken q last = q ≤ last

in_order-IsAllocator : IsAllocator in_order Taken
in_order-IsAllocator = record {
  fresh = λ h nz. elim (Bool-cases (ltb (h + 1) (2 ^ 20))) [
    | inl e ↦
        let small : h + 1 < 2 ^ 20 = ground (arith, e) in
        (h + 1, rw e refl, small, λ t. absurd (omega (arith, t)), rw e (omega arith))
    | inr e ↦ absurd (nz (rw e refl))
  ];
  kept = λ h q t. elim (Bool-cases (ltb (h + 1) (2 ^ 20))) [
    | inl e ↦ rw e (omega (arith, t))
    | inr e ↦ rw e t
  ];
}

-- An AddrSpace at 0x5000, with its directory in the frame 16.
abbrev no_pages : Tables in_order
no_pages = record { words = λ b. if b == 0x5000 then 0x10007 else 0; heap = 100 }

no_pages-IsSpace : IsSpace in_order Taken 0x5000 16 no_pages
no_pages-IsSpace = record {
  present = refl;
  root_is = refl;
  root_used = omega arith;
  space_used = omega arith;
  root_apart = omega arith;
  table_used = λ i hi p.
      let e : (entry (16 * 4096) i == 0x5000) ≡ false = ground arith in
      absurd (omega (arith, ap (λ c. (if c then 0x10007 else 0) % 2) (sym e) ∙ p));
  tables_apart = λ i j hi hj p p' f.
      let e : (entry (16 * 4096) i == 0x5000) ≡ false = ground arith in
      absurd (omega (arith, ap (λ c. (if c then 0x10007 else 0) % 2) (sym e) ∙ p));
}

user_page : IsUserPage 0x40000000
user_page = record { above = omega arith; below = omega arith; aligned = refl }

unmapped : translate no_pages.words 16 0x40000000 ≡ none
unfolding translate
unmapped = refl

map_lem_example :
    ((map in_order 0x5000 0x40000000 (0x123 * 4096) 3 no_pages ≡ exit 1)
      × ((in_order.pgalloc pgsize no_pages.heap).0 ≡ 0))
    ⊎ ((t3 : Tables in_order) × (map in_order 0x5000 0x40000000 (0x123 * 4096) 3 no_pages ≡ done t3)
        × IsSpace in_order Taken 0x5000 16 t3
        × ((off : ℕ)
            → off < 4096
            → translate t3.words 16 (0x40000000 + off) ≡ some (0x123 * 4096 + off))
        × ((x : ℕ)
            → x < 2 ^ 32
            → x / 4096 ≢ 0x40000000 / 4096
            → translate t3.words 16 x ≡ translate no_pages.words 16 x))
map_lem_example =
    map_lem in_order Taken in_order-IsAllocator 0x5000 16 0x40000000 0x123 3 no_pages user_page
      no_pages-IsSpace (omega arith) (omega arith) unmapped

-- The same with a table in the frame 17, where the page 0x40000000 is mapped.
abbrev one_page : Tables in_order
one_page = record {
  words = λ b.
      if b == 0x5000
      then 0x10007
      else if b == 0x10400
      then 0x11007
      else if b == 0x11000
      then 0x123007
      else 0;
  heap = 100;
}

one_table :
    (i : ℕ)
    → i < 1024
    → one_page.words (entry (16 * 4096) i) % 2 ≡ 1
    → (i ≡ 256) × (one_page.words (entry (16 * 4096) i) ≡ 0x11007)
one_table i hi p = elim (ℕ_discrete i 256) [
  | yes e ↦ (e, rw e refl)
  | no n ↦
      let e1 : (entry (16 * 4096) i == 0x5000) ≡ false = ground arith in
      let e2 : (entry (16 * 4096) i == 0x10400) ≡ false = ground arith in
      let e3 : (entry (16 * 4096) i == 0x11000) ≡ false = ground arith in
      let z : one_page.words (entry (16 * 4096) i) ≡ 0 = rw (e1, e2, e3) refl in
      absurd (omega (arith, p, z))
]

one_page-IsSpace : IsSpace in_order Taken 0x5000 16 one_page
one_page-IsSpace = record {
  present = refl;
  root_is = refl;
  root_used = omega arith;
  space_used = omega arith;
  root_apart = omega arith;
  table_used = λ i hi p.
      let (_, e) = one_table i hi p in (omega (arith, e), omega (arith, e), omega (arith, e));
  tables_apart = λ i j hi hj p p' f. (one_table i hi p).0 ∙ sym (one_table j hj p').0;
}

mapped : translate one_page.words 16 0x40000000 ≡ some 0x123000
unfolding translate
mapped = refl

unmap_lem_example :
    (t3 : Tables in_order) × (map in_order 0x5000 0x40000000 (0 * 4096) mmap_none one_page
      ≡ done t3)
    × IsSpace in_order Taken 0x5000 16 t3
    × ((off : ℕ) → off < 4096 → translate t3.words 16 (0x40000000 + off) ≡ none)
    × ((x : ℕ)
        → x < 2 ^ 32
        → x / 4096 ≢ 0x40000000 / 4096
        → translate t3.words 16 x ≡ translate one_page.words 16 x)
unmap_lem_example =
    unmap_lem in_order Taken in_order-IsAllocator 0x5000 16 0x40000000 0x123000 0 one_page user_page
      one_page-IsSpace (omega arith) mapped

-- A kernel with its directory in the frame 16 and one table, in the frame 17.
abbrev kernel_only : Tables in_order
kernel_only = record { words = λ b. if b == 0x10000 then 0x11003 else 0; heap = 100 }
