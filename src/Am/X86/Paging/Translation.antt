-- ===== src/Am/X86/Paging/Translation.antt =====
-- What the processor does with the tables, and when tables are those of an address space.
use riscv64_cpu.Base.{
  inl, inr, refl, none, some, true, false, zero, suc, ℕ, Option, ◌%◌, ◌*◌, ◌<◌, ◌≡◌, ◌≢◌, ◌≤◌,
  if◌then◌else◌, ◌+◌, ◌/◌, ◌==◌, ◌^◌, arith, ◌⊎◌, ◌∙◌, Bool-cases, ap, sym,
}
use riscv64_cpu.Am.X86.Paging.{zero_entries, set_word, entry, Allocator, Tables, pgsize}
use riscv64_cpu.Am.X86.Paging.Entries.{frame}
use native.Mathlib.Decide.{ℕ_discrete}

-- The address of the entry of `va` in the directory, which stands in the frame `root`, and in a
-- table.
abbrev pub directory_slot : (root va : ℕ) → ℕ
directory_slot root va = entry (root * 4096) (va / 2 ^ 22 % 1024)

abbrev pub table_slot : (ℕ → ℕ) → (root va : ℕ) → ℕ
table_slot words root va = entry (frame (words (directory_slot root va)) * 4096) (va / 4096 % 1024)

-- Translation of a virtual address, with the directory's frame in CR3: a directory entry that is
-- present names the table, and a table entry that is present names the page.
unfoldable pub translate : (ℕ → ℕ) → (root va : ℕ) → Option ℕ
translate words root va =
    if words (directory_slot root va) % 2 == 0
    then none
    else if words (table_slot words root va) % 2 == 0
    then none
    else some (frame (words (table_slot words root va)) * 4096 + va % 4096)

-- What is documented of `pgalloc`: it returns 0, or a page that was free; other pages stay in use.
pub record IsAllocator (a : Allocator) (InUse : ℕ → a.H → Type 0) : Type 0 where
  pub fresh :
      (h : a.H)
      → (a.pgalloc pgsize h).0 ≢ 0
      → (q : ℕ) × ((a.pgalloc pgsize h).0 ≡ q * 4096)
        × (q < 2 ^ 20)
        × (¬ InUse q h)
        × InUse q (a.pgalloc pgsize h).1
  pub kept : (h : a.H) (q : ℕ) → InUse q h → InUse q (a.pgalloc pgsize h).1

-- The tables of an address space: a directory, and one table of its own for each entry that is
-- present, in pages in use, apart from each other and from the AddrSpace.
pub record IsSpace (a : Allocator) (InUse : ℕ → a.H → Type 0) (space root : ℕ) (t : Tables a)
    : Type 0 where
  pub present : t.words space % 2 ≡ 1
  pub root_is : frame (t.words space) ≡ root
  pub root_used : InUse root t.heap
  pub space_used : InUse (space / 4096) t.heap
  pub root_apart : root ≢ space / 4096
  pub table_used :
      (i : ℕ)
      → i < 1024
      → t.words (entry (root * 4096) i) % 2 ≡ 1
      → InUse (frame (t.words (entry (root * 4096) i))) t.heap
        × (frame (t.words (entry (root * 4096) i)) ≢ root)
        × (frame (t.words (entry (root * 4096) i)) ≢ space / 4096)
  pub tables_apart :
      (i j : ℕ)
      → i < 1024
      → j < 1024
      → t.words (entry (root * 4096) i) % 2 ≡ 1
      → t.words (entry (root * 4096) j) % 2 ≡ 1
      → frame (t.words (entry (root * 4096) i)) ≡ frame (t.words (entry (root * 4096) j))
      → i ≡ j

pub set_word-same : (words : ℕ → ℕ) (a v : ℕ) → set_word words a v a ≡ v
set_word-same words a v = let e : (a == a) ≡ true = ground arith in rw e refl

pub set_word-other : (words : ℕ → ℕ) (a v b : ℕ) → b ≢ a → set_word words a v b ≡ words b
set_word-other words a v b h = let e : (b == a) ≡ false = ground arith in rw e refl

pub zero_entries-outside :
    (left i base : ℕ) (words : ℕ → ℕ) (b : ℕ)
    → (b < base + 4 * i) ⊎ (base + 4 * (i + left) ≤ b)
    → zero_entries left i base words b ≡ words b
unfolding zero_entries
zero_entries-outside zero i base words b h = refl
zero_entries-outside (suc left) i base words b h =
    zero_entries-outside left (i + 1) base _ b (omega arith)
    ∙ set_word-other words (entry base i) 0 b (omega arith)

pub zero_entries-inside :
    (left i base : ℕ) (words : ℕ → ℕ) (k : ℕ)
    → i ≤ k
    → k < i + left
    → zero_entries left i base words (entry base k) ≡ 0
unfolding zero_entries
zero_entries-inside zero i base words k lo hi = absurd (omega arith)
zero_entries-inside (suc left) i base words k lo hi = elim (ℕ_discrete k i) [
  | yes e ↦
      let x : entry base k ≡ entry base i = omega arith in
      zero_entries-outside left (i + 1) base _ (entry base k) (omega arith)
      ∙ rw x (set_word-same words (entry base i) 0)
  | no n ↦ zero_entries-inside left (i + 1) base _ k (omega arith) (omega arith)
]

-- The two entries decide the translation.
pub translate-no_table :
    (words : ℕ → ℕ) (root va : ℕ)
    → words (directory_slot root va) % 2 ≡ 0
    → translate words root va ≡ none
unfolding translate
translate-no_table words root va h = rw h refl

pub translate-no_page :
    (words : ℕ → ℕ) (root va : ℕ)
    → words (table_slot words root va) % 2 ≡ 0
    → translate words root va ≡ none
unfolding translate
translate-no_page words root va h = elim (Bool-cases (words (directory_slot root va) % 2 == 0)) [
  | inl e ↦ rw e refl
  | inr e ↦ rw (e, h) refl
]

pub translate-page :
    (words : ℕ → ℕ) (root va : ℕ)
    → words (directory_slot root va) % 2 ≡ 1
    → words (table_slot words root va) % 2 ≡ 1
    → translate words root va ≡ some (frame (words (table_slot words root va)) * 4096 + va % 4096)
unfolding translate
translate-page words root va h g = rw (h, g) refl

-- Entries that are kept translate as before; the table matters only if it is present.
pub translate-same :
    (words words1 : ℕ → ℕ) (root va : ℕ)
    → words1 (directory_slot root va) ≡ words (directory_slot root va)
    → (words (directory_slot root va) % 2 ≡ 1
        → words1 (table_slot words root va) ≡ words (table_slot words root va))
    → translate words1 root va ≡ translate words root va
unfolding translate
translate-same words words1 root va d p = elim (ℕ_discrete (words (directory_slot root va) % 2) 0) [
  | yes e ↦
      translate-no_table words1 root va (ap (λ (w : ℕ). w % 2) d ∙ e)
      ∙ sym (translate-no_table words root va e)
  | no n ↦
      let one : words (directory_slot root va) % 2 ≡ 1 = omega arith in
      ap
        (λ (w : ℕ).
          if w % 2 == 0
          then none
          else if words1 (entry (frame w * 4096) (va / 4096 % 1024)) % 2 == 0
          then none
          else some (frame (words1 (entry (frame w * 4096) (va / 4096 % 1024))) * 4096 + va % 4096))
        d
      ∙ ap
          (λ (w : ℕ).
            if words (directory_slot root va) % 2 == 0
            then none
            else if w % 2 == 0
            then none
            else some (frame w * 4096 + va % 4096))
          (p one)
]
