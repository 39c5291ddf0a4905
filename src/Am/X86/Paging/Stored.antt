-- ===== src/Am/X86/Paging/Stored.antt =====
-- A store to an entry of a page table.
use riscv64_cpu.Am.X86.Paging.{Allocator, Tables, entry, store}
use riscv64_cpu.Am.X86.Paging.Entries.{frame}
use riscv64_cpu.Am.X86.Paging.Translation.{
  IsSpace, translate, directory_slot, table_slot, set_word-other, set_word-same, translate-same,
}
use riscv64_cpu.Base.{ℕ, ◌%◌, ◌≡◌, ap, arith, ◌/◌, ◌<◌, ◌*◌, ◌^◌, ◌∙◌, ◌≢◌, sym}
use mathlib.Core.Path.{subst}
use native.Mathlib.Decide.{ℕ_discrete}

module _ (a : Allocator) (InUse : ℕ → a.H → Type 0) (space root : ℕ) where
  -- A store to the entry of `va` in its table keeps the tables, and the other translations.
  module _ (va v : ℕ) (t : Tables a) (h : IsSpace a InUse space root t)
      (d : t.words (directory_slot root va) % 2 ≡ 1) where
    abbrev slot : ℕ
    slot = table_slot t.words root va

    abbrev stored : Tables a
    stored = store a slot v t

    apart :
        (b : ℕ) → b / 4096 ≢ frame (t.words (directory_slot root va)) → stored.words b ≡ t.words b
    apart b n = set_word-other t.words slot v b (omega (arith, n))

    directory-same :
        (j : ℕ) → j < 1024 → stored.words (entry (root * 4096) j) ≡ t.words (entry (root * 4096) j)
    directory-same j hj =
        apart (entry (root * 4096) j)
          (omega (arith, (h.table_used (va / 2 ^ 22 % 1024) (omega arith) d).1))

    space-same : stored.words space ≡ t.words space
    space-same = apart space (omega (arith, (h.table_used (va / 2 ^ 22 % 1024) (omega arith) d).2))

    pub stored-IsSpace : IsSpace a InUse space root stored
    stored-IsSpace = record {
      present = ap (λ (w : ℕ). w % 2) space-same ∙ h.present;
      root_is = ap frame space-same ∙ h.root_is;
      root_used = h.root_used;
      space_used = h.space_used;
      root_apart = h.root_apart;
      table_used = λ j hj p.
          let e = directory-same j hj in
          let old = h.table_used j hj (ap (λ (w : ℕ). w % 2) (sym e) ∙ p) in
          subst (λ f. InUse f t.heap × (f ≢ root) × (f ≢ space / 4096)) (ap frame (sym e)) old;
      tables_apart = λ j k hj hk p p' e.
          let ej = directory-same j hj in
          let ek = directory-same k hk in
          h.tables_apart j k hj hk (ap (λ (w : ℕ). w % 2) (sym ej) ∙ p)
            (ap (λ (w : ℕ). w % 2) (sym ek) ∙ p') (sym (ap frame ej) ∙ e ∙ ap frame ek);
    }

    pub stored-translate_other :
        (x : ℕ)
        → x < 2 ^ 32
        → va < 2 ^ 32
        → x / 4096 ≢ va / 4096
        → translate stored.words root x ≡ translate t.words root x
    stored-translate_other x hx hva n =
        translate-same t.words stored.words root x
          (directory-same (x / 2 ^ 22 % 1024) (omega arith))
          (λ p.
            elim (ℕ_discrete (frame (t.words (directory_slot root x)))
              (frame (t.words (directory_slot root va)))) [
                | no other ↦ apart (table_slot t.words root x) (omega (arith, other))
                | yes same ↦
                    let i =
                      h.tables_apart (x / 2 ^ 22 % 1024) (va / 2 ^ 22 % 1024) (omega arith)
                        (omega arith) p d same in
                    set_word-other t.words slot v (table_slot t.words root x)
                      (omega (arith, i, same, n))
              ])

    -- The entry of `va`, where the processor reads it.
    pub stored-slot : stored.words (table_slot stored.words root va) ≡ v
    stored-slot =
        ap (λ w. stored.words (entry (frame w * 4096) (va / 4096 % 1024)))
          (directory-same (va / 2 ^ 22 % 1024) (omega arith))
        ∙ set_word-same t.words slot v

    pub stored-directory : stored.words (directory_slot root va) % 2 ≡ 1
    stored-directory = ap (λ (w : ℕ). w % 2) (directory-same (va / 2 ^ 22 % 1024) (omega arith)) ∙ d
