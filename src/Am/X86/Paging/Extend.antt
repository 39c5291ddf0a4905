-- ===== src/Am/X86/Paging/Extend.antt =====
-- A new table in the directory, in a page that was free.
use riscv64_cpu.Base.{
  inl, inr, ℕ, ap, ◌*◌, ◌<◌, ◌≡◌, ◌≢◌, arith, ◌%◌, ◌/◌, ◌^◌, ◌∙◌, sym, ◌+◌, ◌⊎◌, ◌≤◌,
}
use riscv64_cpu.Am.X86.Paging.{Allocator, Tables, entry}
use riscv64_cpu.Am.X86.Paging.Entries.{frame, frame-entry}
use riscv64_cpu.Am.X86.Paging.Translation.{
  IsSpace, translate, directory_slot, table_slot, translate-no_page, translate-no_table,
  translate-same,
}
use mathlib.Core.Path.{subst}
use native.Mathlib.Decide.{ℕ_discrete}

module _ (a : Allocator) (InUse : ℕ → a.H → Type 0) (space root : ℕ) where
  -- The table `q` is added for the entry `i`.
  pub record Extended (i q : ℕ) (t t1 : Tables a) : Type 0 where
    pub index : i < 1024
    pub small : q < 2 ^ 20
    pub absent : t.words (entry (root * 4096) i) % 2 ≡ 0
    pub free : ¬ InUse q t.heap
    pub used : InUse q t1.heap
    pub kept : (x : ℕ) → InUse x t.heap → InUse x t1.heap
    pub added : t1.words (entry (root * 4096) i) ≡ q * 4096 + 7
    pub zeros : (k : ℕ) → k < 1024 → t1.words (entry (q * 4096) k) ≡ 0
    pub others :
        (b : ℕ)
        → b ≢ entry (root * 4096) i
        → (b < q * 4096) ⊎ (q * 4096 + 4096 ≤ b)
        → t1.words b ≡ t.words b

  module _ (i q : ℕ) (t t1 : Tables a) (h : IsSpace a InUse space root t)
      (x : Extended i q t t1) where
    pub in_use_other : (y : ℕ) → InUse y t.heap → y ≢ q
    in_use_other y u e = x.free (subst (λ z. InUse z t.heap) e u)

    space_same : t1.words space ≡ t.words space
    space_same =
        x.others space (omega (arith, h.root_apart, x.index))
          (omega (arith, in_use_other (space / 4096) h.space_used))

    entry-same :
        (j : ℕ)
        → j < 1024
        → j ≢ i
        → t1.words (entry (root * 4096) j) ≡ t.words (entry (root * 4096) j)
    entry-same j hj n =
        x.others (entry (root * 4096) j) (omega arith)
          (omega (arith, in_use_other root h.root_used))

    pub added-frame : frame (t1.words (entry (root * 4096) i)) ≡ q
    added-frame = ap frame x.added ∙ frame-entry q 7 x.small (omega arith)

    -- An entry that is present is the new one, or an old one.
    entry_cases :
        (j : ℕ)
        → j < 1024
        → t1.words (entry (root * 4096) j) % 2 ≡ 1
        → ((j ≡ i) × (frame (t1.words (entry (root * 4096) j)) ≡ q))
          ⊎ ((t.words (entry (root * 4096) j) % 2 ≡ 1)
              × (frame (t1.words (entry (root * 4096) j))
                  ≡ frame (t.words (entry (root * 4096) j))))
    entry_cases j hj p = elim (ℕ_discrete j i) [
      | yes e ↦ inl (e, ap (λ k. frame (t1.words (entry (root * 4096) k))) e ∙ added-frame)
      | no n ↦
          inr (ap (λ (w : ℕ). w % 2) (sym (entry-same j hj n)) ∙ p, ap frame (entry-same j hj n))
    ]

    abbrev Good : ℕ → Type 0
    Good f = InUse f t1.heap × (f ≢ root) × (f ≢ space / 4096)

    pub extended-IsSpace : IsSpace a InUse space root t1
    extended-IsSpace = record {
      present = ap (λ (w : ℕ). w % 2) space_same ∙ h.present;
      root_is = ap frame space_same ∙ h.root_is;
      root_used = x.kept root h.root_used;
      space_used = x.kept (space / 4096) h.space_used;
      root_apart = h.root_apart;
      table_used = λ j hj p. elim (entry_cases j hj p) [
        | inl (e, f) ↦ subst Good (sym f) (
          x.used,
          λ r. in_use_other root h.root_used (sym r),
          λ r. in_use_other (space / 4096) h.space_used (sym r),
        )
        | inr (o, f) ↦ let (u, r, s) = h.table_used j hj o in subst Good (sym f) (x.kept _ u, r, s)
      ];
      tables_apart = λ j k hj hk p p' e. elim (entry_cases j hj p) [
        | inl (ji, f) ↦ elim (entry_cases k hk p') [
          | inl (ki, g) ↦ ji ∙ sym ki
          | inr (o, g) ↦ absurd (in_use_other _ (h.table_used k hk o).0 (sym g ∙ sym e ∙ f))
        ]
        | inr (o, f) ↦ elim (entry_cases k hk p') [
          | inl (ki, g) ↦ absurd (in_use_other _ (h.table_used j hj o).0 (sym f ∙ e ∙ g))
          | inr (o', g) ↦ h.tables_apart j k hj hk o o' (sym f ∙ e ∙ g)
        ]
      ];
    }

    pub extended-translate : (va : ℕ) → translate t1.words root va ≡ translate t.words root va
    extended-translate va =
        let j = va / 2 ^ 22 % 1024 in
        elim (ℕ_discrete j i) [
          | yes e ↦
              let slot : directory_slot root va ≡ entry (root * 4096) i =
                ap (entry (root * 4096)) e in
              let table : table_slot t1.words root va ≡ entry (q * 4096) (va / 4096 % 1024) =
                ap (λ s. entry (frame (t1.words s) * 4096) (va / 4096 % 1024)) slot
                ∙ ap (λ f. entry (f * 4096) (va / 4096 % 1024)) added-frame in
              translate-no_page t1.words root va (
                ap (λ s. t1.words s % 2) table
                ∙ ap (λ (w : ℕ). w % 2) (x.zeros (va / 4096 % 1024) (omega arith)))
              ∙ sym (translate-no_table t.words root va (ap (λ s. t.words s % 2) slot ∙ x.absent))
          | no n ↦ translate-same t.words t1.words root va (entry-same j (omega arith) n) (λ p.
              let (u, r, s) = h.table_used j (omega arith) p in
              x.others (table_slot t.words root va) (omega (arith, x.index, r))
                (omega (arith, in_use_other _ u)))
        ]
