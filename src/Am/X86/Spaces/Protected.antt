-- ===== src/Am/X86/Spaces/Protected.antt =====
-- protect: the address space of a new process.
use riscv64_cpu.Base.{
  none, zero, suc, true, false, refl, inl, inr, ℕ, Bool, ◌/◌, ◌≢◌, ◌*◌, ◌<◌, ◌==◌, not, ◌%◌, ◌≡◌,
  ◌⊎◌, arith, ◌&&◌, ◌≤◌, ltb, ◌+◌, ◌^◌, ap, ◌||◌, if◌then◌else◌, leb, ◌∙◌, sym,
}
use riscv64_cpu.Base.Run.{done, ◌>>=◌}
use riscv64_cpu.Base.Words.{u32}
use riscv64_cpu.Am.X86.Paging.{
  Allocator, Tables, entry, store, set_word, page_directory, indexof, vm_areas, zero_entries,
}
use riscv64_cpu.Am.X86.Paging.Entries.{frame, indexof_directory, frame-entry}
use riscv64_cpu.Am.X86.Spaces.{copy_area, copy_areas, pgsize}
use native.Mathlib.Decide.{ℕ_discrete}
use riscv64_cpu.Am.X86.Paging.Translation.{
  set_word-same, set_word-other, IsAllocator, IsSpace, translate, zero_entries-inside,
  zero_entries-outside, translate-no_table,
}
use mathlib.Core.Path.{subst}

-- The rounds from `cur` to `end`, none of them at an entry of the user area.
abbrev reaches : ℕ → (cur end : ℕ) → Bool
reaches zero cur end = cur == end
reaches (suc left) cur end =
    not (cur == end)
    && (ltb (cur / 2 ^ 22 % 1024) 256 || leb 512 (cur / 2 ^ 22 % 1024))
    && reaches left (u32 (cur + 2 ^ 22)) end

-- What the kernel's directory is: in a page in use, with tables of its own that are in use.
pub record IsKernel (a : Allocator) (InUse : ℕ → a.H → Type 0) (kernel space : ℕ) (t : Tables a)
    : Type 0 where
  pub kernel_used : InUse kernel t.heap
  pub space_used : InUse (space / 4096) t.heap
  pub kernel_apart : kernel ≢ space / 4096
  pub table_used :
      (i : ℕ)
      → i < 1024
      → t.words (entry (kernel * 4096) i) % 2 ≡ 1
      → InUse (frame (t.words (entry (kernel * 4096) i))) t.heap
        × (frame (t.words (entry (kernel * 4096) i)) ≢ space / 4096)
  pub tables_apart :
      (i j : ℕ)
      → i < 1024
      → j < 1024
      → t.words (entry (kernel * 4096) i) % 2 ≡ 1
      → t.words (entry (kernel * 4096) j) % 2 ≡ 1
      → frame (t.words (entry (kernel * 4096) i)) ≡ frame (t.words (entry (kernel * 4096) j))
      → i ≡ j

module _ (a : Allocator) (upt kernel : ℕ) (other : upt ≢ kernel) (t0 : Tables a) where
  -- While the entries are copied from `t0`.
  pub record Copied (t : Tables a) : Type 0 where
    pub entries :
        (j : ℕ)
        → j < 1024
        → (t.words (entry (upt * 4096) j) ≡ 0)
          ⊎ (((j < 256) ⊎ (512 ≤ j))
              × (t.words (entry (upt * 4096) j) ≡ t0.words (entry (kernel * 4096) j)))
    pub others : (b : ℕ) → (b < upt * 4096) ⊎ (upt * 4096 + 4096 ≤ b) → t.words b ≡ t0.words b
    pub heap : t.heap ≡ t0.heap

  abbrev copied_once : ℕ → Tables a → Tables a
  copied_once i t = store a (entry (upt * 4096) i) (t.words (entry (kernel * 4096) i)) t

  copied_once-Copied :
      (i : ℕ) (t : Tables a)
      → i < 1024
      → (i < 256) ⊎ (512 ≤ i)
      → Copied t
      → Copied (copied_once i t)
  copied_once-Copied i t hi allowed c =
      let v = t.words (entry (kernel * 4096) i) in
      record {
        entries = λ j hj. elim (ℕ_discrete j i) [
          | yes e ↦
              let at_ : entry (upt * 4096) j ≡ entry (upt * 4096) i = ap (entry (upt * 4096)) e in
              let old = c.others (entry (kernel * 4096) i) (omega (arith, other)) in
              inr (
                omega (arith, e, allowed),
                ap (set_word t.words (entry (upt * 4096) i) v) at_
                    ∙ set_word-same t.words (entry (upt * 4096) i) v
                    ∙ old
                    ∙ ap (λ k. t0.words (entry (kernel * 4096) k)) (sym e),
              )
          | no n ↦
              let same =
                set_word-other t.words (entry (upt * 4096) i) v (entry (upt * 4096) j)
                  (omega (arith, n)) in
              elim (c.entries j hj) [ inl z ↦ inl (same ∙ z) | inr (r, k) ↦ inr (r, same ∙ k) ]
        ];
        others = λ b o.
            set_word-other t.words (entry (upt * 4096) i) v b (omega (arith, o)) ∙ c.others b o;
        heap = c.heap;
      }

  copy_area-Copied :
      (left fuel cur end : ℕ) (t : Tables a)
      → left < fuel
      → reaches left cur end ≡ true
      → Copied t
      → (t1 : Tables a) × (copy_area a fuel (upt * 4096) (kernel * 4096) cur end t ≡ done t1)
        × Copied t1
  unfolding copy_area
  copy_area-Copied left zero cur end t h r c = absurd (omega arith)
  copy_area-Copied zero (suc fuel) cur end t h r c = (t, rw r refl, c)
  copy_area-Copied (suc left) (suc fuel) cur end t h r c =
      let i = cur / 2 ^ 22 % 1024 in
      let going : (cur == end) ≡ false = ground (arith, r) in
      let allowed : (i < 256) ⊎ (512 ≤ i) = ground (arith, r) in
      let rest : reaches left (u32 (cur + 2 ^ 22)) end ≡ true = ground (arith, r) in
      let (t1, run, c1) =
        copy_area-Copied left fuel (u32 (cur + 2 ^ 22)) end (copied_once i t) (omega arith) rest
          (copied_once-Copied i t (omega arith) allowed c) in
      (
        t1,
        ap
              (λ b.
                if b
                then done t
                else copy_area a fuel (upt * 4096) (kernel * 4096) (u32 (cur + 2 ^ 22)) end
                    (copied_once (indexof cur page_directory) t))
              going
            ∙ ap
                (λ k.
                  copy_area a fuel (upt * 4096) (kernel * 4096) (u32 (cur + 2 ^ 22)) end
                    (copied_once k t))
                (indexof_directory cur)
            ∙ run,
        c1,
      )

  pub copy_areas-Copied :
      (n : ℕ) (t : Tables a)
      → 256 < n
      → Copied t
      → (t1 : Tables a) × (copy_areas a n (upt * 4096) (kernel * 4096) vm_areas t ≡ done t1)
        × Copied t1
  unfolding copy_areas
  copy_areas-Copied n t h c =
      let (t1, run1, c1) = copy_area-Copied 256 n 0 0x40000000 t h refl c in
      let (t2, run2, c2) = copy_area-Copied 12 n 0xfd000000 0 t1 (omega (arith, h)) refl c1 in
      (
        t2,
        ap
              (λ m. m >>= λ s.
                copy_area a n (upt * 4096) (kernel * 4096) 0xfd000000 0 s >>= λ r. done r)
              run1
            ∙ ap (λ m. m >>= λ r. done r) run2,
        c2,
      )

module _ (a : Allocator) (InUse : ℕ → a.H → Type 0) (law : IsAllocator a InUse) (space kernel q : ℕ)
    (t : Tables a) (k : IsKernel a InUse kernel space t) (small : q < 2 ^ 20)
    (free : ¬ InUse q t.heap) (used : InUse q (a.pgalloc pgsize t.heap).1) where
  pub taken_other : (y : ℕ) → InUse y t.heap → q ≢ y
  taken_other y u e = free (subst (λ z. InUse z t.heap) (sym e) u)

  abbrev pub zeroed : Tables a
  zeroed = record {
    words = zero_entries 1024 0 (q * 4096) t.words;
    heap = (a.pgalloc pgsize t.heap).1;
  }

  abbrev pub Copies : Tables a → Type 0
  Copies = Copied a q kernel (taken_other kernel k.kernel_used) zeroed

  pub zeroed-Copied : Copies zeroed
  zeroed-Copied = record {
    entries =
        λ j hj. inl (zero_entries-inside 1024 0 (q * 4096) t.words j (omega arith) (omega arith));
    others = λ b o. refl;
    heap = refl;
  }

  module _ (t2 : Tables a) (c : Copies t2) where
    abbrev pub final : Tables a
    final = store a space (q * 4096 + 5) t2

    final-entry :
        (j : ℕ) → j < 1024 → final.words (entry (q * 4096) j) ≡ t2.words (entry (q * 4096) j)
    final-entry j hj =
        set_word-other t2.words space (q * 4096 + 5) (entry (q * 4096) j)
          (omega (arith, taken_other (space / 4096) k.space_used))

    final-space : final.words space ≡ q * 4096 + 5
    final-space = set_word-same t2.words space (q * 4096 + 5)

    -- An entry that is present is the kernel's.
    final_cases :
        (j : ℕ)
        → j < 1024
        → (final.words (entry (q * 4096) j) ≡ 0)
          ⊎ (((j < 256) ⊎ (512 ≤ j))
              × (final.words (entry (q * 4096) j) ≡ t.words (entry (kernel * 4096) j)))
    final_cases j hj = elim (c.entries j hj) [
      | inl z ↦ inl (final-entry j hj ∙ z)
      | inr (r, e) ↦ inr (
        r,
        final-entry j hj
            ∙ e
            ∙ zero_entries-outside 1024 0 (q * 4096) t.words (entry (kernel * 4096) j)
                (omega (arith, taken_other kernel k.kernel_used)),
      )
    ]

    kernel_entry :
        (j : ℕ)
        → j < 1024
        → final.words (entry (q * 4096) j) % 2 ≡ 1
        → final.words (entry (q * 4096) j) ≡ t.words (entry (kernel * 4096) j)
    kernel_entry j hj p = elim (final_cases j hj) [
      | inl z ↦ absurd (omega (arith, p, z))
      | inr (r, e) ↦ e
    ]

    pub protected-IsSpace : IsSpace a InUse space q final
    protected-IsSpace = record {
      present = ap (λ (w : ℕ). w % 2) final-space ∙ omega arith;
      root_is = ap frame final-space ∙ frame-entry q 5 small (omega arith);
      root_used = subst (InUse q) (sym c.heap) used;
      space_used =
          subst (InUse (space / 4096)) (sym c.heap) (law.kept t.heap (space / 4096) k.space_used);
      root_apart = taken_other (space / 4096) k.space_used;
      table_used = λ j hj p.
          let e = kernel_entry j hj p in
          let (u, s) = k.table_used j hj (ap (λ (w : ℕ). w % 2) (sym e) ∙ p) in
          subst (λ f. InUse f final.heap × (f ≢ q) × (f ≢ space / 4096)) (ap frame (sym e))
            (subst (InUse _) (sym c.heap) (law.kept t.heap _ u), λ r. taken_other _ u (sym r), s);
      tables_apart = λ i j hi hj p p' f.
          let e = kernel_entry i hi p in
          let e' = kernel_entry j hj p' in
          k.tables_apart i j hi hj (ap (λ (w : ℕ). w % 2) (sym e) ∙ p)
            (ap (λ (w : ℕ). w % 2) (sym e') ∙ p') (sym (ap frame e) ∙ f ∙ ap frame e');
    }

    pub protected-translate :
        (x : ℕ) → 0x40000000 ≤ x → x < 0x80000000 → translate final.words q x ≡ none
    protected-translate x lo hi =
        let j = x / 2 ^ 22 % 1024 in
        let zero_ : final.words (entry (q * 4096) j) ≡ 0 = elim (final_cases j (omega arith)) [
          | inl z ↦ z
          | inr (r, e) ↦ absurd (omega (arith, r))
        ] in
        translate-no_table final.words q x (ap (λ (w : ℕ). w % 2) zero_)
