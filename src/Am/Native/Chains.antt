-- ===== src/Am/Native/Chains.antt =====
-- The lists of page maps, and what is assumed of the system.
use riscv64_cpu.Base.{
  true, false, refl, inl, inr, [], ◌∷◌, none, some, List, ℕ, ◌≡◌, ◌≢◌, if◌then◌else◌, leb, ◌&&◌,
  ltb, ◌+◌, ◌-◌, Bool, ap, ==_refl, Bool-cases, ◌==◌, ◌∙◌, ==_iff, arith, sym, ◌%◌, ◌^◌,
}
use riscv64_cpu.Am.Native.{System, Hash, PageMap, Vme, in_user_space}
use mathlib.Core.Path.{subst}

-- What is documented of mmap with MAP_FIXED and of munmap: on user pages, at multiples of the page
-- size, they succeed, the page shows the file, or nothing, and other addresses show what they did.
pub record IsSystem (os : System) (pgsize : ℕ) : Type 0 where
  pub maps :
      (va prot offset : ℕ) (s : os.S) (b : ℕ)
      → in_user_space va ≡ true
      → va % pgsize ≡ 0
      → offset % pgsize ≡ 0
      → ((os.mmap va pgsize prot offset s).0 ≡ true)
        × (os.view (os.mmap va pgsize prot offset s).1 b ≡ (
            if leb va b && ltb b (va + pgsize)
            then some (offset + (b - va), prot)
            else os.view s b))
  pub unmaps :
      (va : ℕ) (s : os.S) (b : ℕ)
      → in_user_space va ≡ true
      → va % pgsize ≡ 0
      → ((os.munmap va pgsize s).0 ≡ true)
        × (os.view (os.munmap va pgsize s).1 b
            ≡ (if leb va b && ltb b (va + pgsize) then none else os.view s b))

-- A page of the user area, and its place in the file, at multiples of the page size.
abbrev pub UserPage : (pgsize pmem va pa : ℕ) → Type 0
UserPage pgsize pmem va pa =
    (in_user_space va ≡ true) × (va % pgsize ≡ 0) × ((pa + 2 ^ 64 - pmem) % 2 ^ 64 % pgsize ≡ 0)

pub UserPage-same :
    (pgsize pmem va va' pa pa' : ℕ)
    → va' ≡ va
    → pa' ≡ pa
    → UserPage pgsize pmem va pa
    → UserPage pgsize pmem va' pa'
UserPage-same pgsize pmem va va' pa pa' v p (u, a, o) = (
  ap in_user_space v ∙ u,
  ap (λ x. x % pgsize) v ∙ a,
  ap (λ x. (x + 2 ^ 64 - pmem) % 2 ^ 64 % pgsize) p ∙ o,
)

module _ (os : System) (table : Hash) where
  abbrev pub Vs : Type 0
  Vs = Vme os table

  abbrev pub Nodes : Type 0
  Nodes = ℕ → PageMap

  abbrev pub Absent : ℕ → List ℕ → Type 0
  Absent x [] = Unit
  Absent x (y ∷ ys) = (y ≢ x) × Absent x ys

  abbrev pub AllMapped : Nodes → List ℕ → Type 0
  AllMapped nodes [] = Unit
  AllMapped nodes (x ∷ xs) = ((nodes x).is_mapped ≡ true) × AllMapped nodes xs

  -- Nodes that agree but for the mark.
  abbrev pub Same : Nodes → Nodes → Type 0
  Same n1 n =
      (q : ℕ)
      → ((n1 q).va ≡ (n q).va)
        × ((n1 q).pa ≡ (n q).pa)
        × ((n1 q).next ≡ (n q).next)
        × ((n1 q).prot ≡ (n q).prot)

  module _ (pgsize pmem : ℕ) where
    -- The list of the nodes from `p` on, none of them twice.
    abbrev pub Chain : Nodes → ℕ → List ℕ → Type 0
    Chain nodes p [] = p ≡ 0
    Chain nodes p (x ∷ xs) =
        (p ≡ x)
        × (x ≢ 0)
        × Absent x xs
        × UserPage pgsize pmem (nodes x).va (nodes x).pa
        × Chain nodes (nodes x).next xs

    pub Chain-Same : (n1 n : Nodes) (p : ℕ) (xs : List ℕ) → Same n1 n → Chain n p xs → Chain n1 p xs
    Chain-Same n1 n p [] e h = h
    Chain-Same n1 n p (x ∷ xs) e (a, b, c, d, rest) =
        let (va, pa, next, prot) = e x in
        (
          a,
          b,
          c,
          UserPage-same pgsize pmem (n x).va (n1 x).va (n x).pa (n1 x).pa va pa d,
          subst (λ y. Chain n1 y xs) (sym next) (Chain-Same n1 n (n x).next xs e rest),
        )

  abbrev pub marked : ℕ → Bool → Nodes → Nodes
  marked x b n q = if q == x then record (n x) { is_mapped = b } else n q

  pub marked-Same : (x : ℕ) (b : Bool) (n : Nodes) → Same (marked x b n) n
  marked-Same x b n q = elim (Bool-cases (q == x)) [
    | inl e ↦ let i : q ≡ x = (==_iff q x).0 e in rw (e, i) (refl, refl, refl, refl)
    | inr e ↦ rw e (refl, refl, refl, refl)
  ]

  pub marked_other : (x : ℕ) (b : Bool) (n : Nodes) (q : ℕ) → q ≢ x → marked x b n q ≡ n q
  marked_other x b n q h = let e : (q == x) ≡ false = ground (arith, h) in rw e refl

  pub marked_self : (x : ℕ) (b : Bool) (n : Nodes) → (marked x b n x).is_mapped ≡ b
  marked_self x b n = rw (==_refl x) refl

  pub AllMapped-marked :
      (x : ℕ) (b : Bool) (n : Nodes) (xs : List ℕ)
      → Absent x xs
      → AllMapped n xs
      → AllMapped (marked x b n) xs
  AllMapped-marked x b n [] a h = tt
  AllMapped-marked x b n (y ∷ ys) (ne, a) (m, h) =
      (ap (λ z. z.is_mapped) (marked_other x b n y ne) ∙ m, AllMapped-marked x b n ys a h)
