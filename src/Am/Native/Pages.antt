-- ===== src/Am/Native/Pages.antt =====
-- The pages of an address space: the addresses that they hold, and what is shown there.
use riscv64_cpu.Base.{
  inl, inr, true, false, refl, [], ◌∷◌, none, some, ℕ, Bool, List, Option, leb, ◌||◌, ◌≡◌,
  if◌then◌else◌, ◌&&◌, ltb, ◌+◌, ◌^◌, ◌-◌, ◌%◌, ap, arith, ◌∙◌, sym, Bool-cases,
}
use riscv64_cpu.Am.Native.{System, Hash, mmap_prot}
use riscv64_cpu.Am.Native.Chains.{IsSystem, Nodes, Same}

pub swap_none :
    (c i : Bool) (o : Option (ℕ × ℕ))
    → (if c then none else if i then none else o) ≡ (if i || c then none else o)
swap_none true true o = refl
swap_none true false o = refl
swap_none false true o = refl
swap_none false false o = refl

-- The pages in their order, the first of which is alone where it stands.
pub shown_first :
    (i c : Bool) (r o v : Option (ℕ × ℕ))
    → (i ≡ true → c ≡ false)
    → (if c then o else if i then r else v) ≡ (if i || c then (if i then r else o) else v)
shown_first true true r o v h = let e : true ≡ false = h refl in absurd (cc e)
shown_first true false r o v h = refl
shown_first false true r o v h = refl
shown_first false false r o v h = refl

module _ (os : System) (table : Hash) (pgsize pmem : ℕ) (law : IsSystem os pgsize) where
  -- The pages of a list: which addresses they hold, and what they show there.
  abbrev pub inside : ℕ → ℕ → Bool
  inside va b = leb va b && ltb b (va + pgsize)

  abbrev pub covered : Nodes os table → List ℕ → ℕ → Bool
  covered n [] b = false
  covered n (x ∷ xs) b = inside (n x).va b || covered n xs b

  abbrev pub shown : Nodes os table → List ℕ → ℕ → Option (ℕ × ℕ)
  shown n [] b = none
  shown n (x ∷ xs) b =
      if inside (n x).va b
      then some
          ((((n x).pa + 2 ^ 64 - pmem) % 2 ^ 64) + (b - (n x).va), mmap_prot os table (n x).prot)
      else shown n xs b

  -- No page is listed twice.
  abbrev pub Separate : Nodes os table → List ℕ → Type 0
  Separate n [] = Unit
  Separate n (x ∷ xs) =
      ((b : ℕ) → inside (n x).va b ≡ true → covered n xs b ≡ false) × Separate n xs

  pub covered-Same :
      (n1 n : Nodes os table) (xs : List ℕ) (b : ℕ)
      → Same os table n1 n
      → covered n1 xs b ≡ covered n xs b
  covered-Same n1 n [] b e = refl
  covered-Same n1 n (x ∷ xs) b e = rw ((e x).0, covered-Same n1 n xs b e) refl

  pub shown-Same :
      (n1 n : Nodes os table) (xs : List ℕ) (b : ℕ)
      → Same os table n1 n
      → shown n1 xs b ≡ shown n xs b
  shown-Same n1 n [] b e = refl
  shown-Same n1 n (x ∷ xs) b e = rw ((e x).0, (e x).1, (e x).3, shown-Same n1 n xs b e) refl

  pub shown-covered :
      (n : Nodes os table) (xs : List ℕ) (b : ℕ) → covered n xs b ≡ false → shown n xs b ≡ none
  shown-covered n [] b h = refl
  shown-covered n (x ∷ xs) b h =
      let out : inside (n x).va b ≡ false = ground (arith, h) in
      let rest : covered n xs b ≡ false = ground (arith, h) in rw out (shown-covered n xs b rest)

  pub Separate-Same :
      (n1 n : Nodes os table) (xs : List ℕ) → Same os table n1 n → Separate n xs → Separate n1 xs
  Separate-Same n1 n [] e h = tt
  Separate-Same n1 n (x ∷ xs) e (a, h) = (
    λ b i. covered-Same n1 n xs b e ∙ a b (ap (λ va. inside va b) (sym (e x).0) ∙ i),
    Separate-Same n1 n xs e h,
  )

  -- What is not covered shows nothing.
  pub shown_or_none :
      (n : Nodes os table) (xs : List ℕ) (b : ℕ)
      → shown n xs b ≡ (if covered n xs b then shown n xs b else none)
  shown_or_none n xs b = elim (Bool-cases (covered n xs b)) [
    | inl e ↦ rw e refl
    | inr e ↦ rw e (shown-covered n xs b e)
  ]

  pub clear_shown :
      (n : Nodes os table) (xs : List ℕ) (b : ℕ) (o : Option (ℕ × ℕ))
      → o ≡ shown n xs b
      → (if covered n xs b then none else o) ≡ none
  clear_shown n xs b o h = elim (Bool-cases (covered n xs b)) [
    | inl e ↦ rw e refl
    | inr e ↦ rw e (h ∙ shown-covered n xs b e)
  ]
