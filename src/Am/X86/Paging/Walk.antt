-- ===== src/Am/X86/Paging/Walk.antt =====
-- ptwalk: it finds the entry that the processor looks up, and adds a table where there is none.
use riscv64_cpu.Base.{
  true, false, inl, inr, refl, ℕ, bit_or, ◌%◌, ◌≡◌, ◌*◌, ◌/◌, arith, ◌^◌, ◌∙◌, ap, ◌<◌, ◌≢◌, ◌+◌,
  ◌==◌, ◌⊎◌, sym, if◌then◌else◌,
}
use riscv64_cpu.Am.X86.Paging.{
  Allocator, Tables, ptwalk, walk, next_table, indexof, entry, page_directory, page_table, pte_w,
  pte_u, pgallocz, set_word, pgsize, zero_entries, store, baseof, pte_p,
}
use riscv64_cpu.Am.X86.Paging.Entries.{
  frame, has-present, baseof_lem, indexof_root, indexof_directory, indexof_table, has-absent,
  table_entry,
}
use riscv64_cpu.Am.X86.Paging.Translation.{
  IsAllocator, IsSpace, directory_slot, table_slot, translate, set_word-same, set_word-other,
  zero_entries-inside, zero_entries-outside,
}
use riscv64_cpu.Base.Run.{done, ◌>>=◌, Run, exit}
use riscv64_cpu.Am.X86.Paging.Extend.{
  Extended, added-frame, extended-IsSpace, extended-translate, in_use_other,
}
use native.Mathlib.Decide.{ℕ_discrete}
use mathlib.Core.Path.{subst}

module _ (a : Allocator) (InUse : ℕ → a.H → Type 0) (law : IsAllocator a InUse)
    (space root : ℕ) where
  abbrev Ts : Type 0
  Ts = Tables a

  next-present :
      (p : ℕ) (t : Ts)
      → t.words p % 2 ≡ 1
      → next_table a p (bit_or pte_w pte_u) t ≡ done (frame (t.words p) * 4096, t)
  unfolding next_table
  next-present p t h = rw (has-present (t.words p) h, baseof_lem (t.words p)) refl

  -- The levels, by the indices and the address at which the walk starts.
  abbrev two_levels : (directory va_table : ℕ) → ℕ × Ts → Run (ℕ × Ts)
  two_levels i j r =
      next_table a (entry r.0 i) (bit_or pte_w pte_u) r.1 >>= λ q. done (entry q.0 j, q.1)

  abbrev three_levels : (from i j : ℕ) → Ts → Run (ℕ × Ts)
  three_levels from i j t = next_table a from (bit_or pte_w pte_u) t >>= two_levels i j

  ptwalk_levels :
      (va : ℕ) (t : Ts)
      → ptwalk a space va (bit_or pte_w pte_u) t
        ≡ three_levels
            (entry space (indexof va (record { mask = 0; shift = 0; bits = 0 })))
            (indexof va page_directory)
            (indexof va page_table)
            t
  unfolding ptwalk walk
  ptwalk_levels va t = refl

  ptwalk_cases :
      (va : ℕ) (t : Ts)
      → IsSpace a InUse space root t
      → ptwalk a space va (bit_or pte_w pte_u) t
        ≡ two_levels (va / 2 ^ 22 % 1024) (va / 4096 % 1024) (root * 4096, t)
  ptwalk_cases va t h =
      let start : entry space (indexof va (record { mask = 0; shift = 0; bits = 0 })) ≡ space =
        omega (arith, indexof_root va) in
      ptwalk_levels va t
      ∙ ap (λ s. three_levels s (indexof va page_directory) (indexof va page_table) t) start
      ∙ ap (λ s. three_levels space s (indexof va page_table) t) (indexof_directory va)
      ∙ ap (λ s. three_levels space (va / 2 ^ 22 % 1024) s t) (indexof_table va)
      ∙ ap (λ s. s >>= two_levels (va / 2 ^ 22 % 1024) (va / 4096 % 1024))
          (next-present space t h.present)
      ∙ ap (λ s. two_levels (va / 2 ^ 22 % 1024) (va / 4096 % 1024) (s * 4096, t)) h.root_is

  pub ptwalk-present :
      (va : ℕ) (t : Ts)
      → IsSpace a InUse space root t
      → t.words (directory_slot root va) % 2 ≡ 1
      → ptwalk a space va (bit_or pte_w pte_u) t ≡ done (table_slot t.words root va, t)
  ptwalk-present va t h p = rw (ptwalk_cases va t h, next-present (directory_slot root va) t p) refl

  -- A table that is missing: the allocator has no page, or the table is added.
  pub pgallocz_none : (t : Ts) → (a.pgalloc pgsize t.heap).0 ≡ 0 → pgallocz a t ≡ exit 1
  unfolding pgallocz
  pgallocz_none t z =
      let test : ((a.pgalloc pgsize t.heap).0 == 0) ≡ true = ground (arith, z) in rw test refl

  pub pgallocz_page :
      (q : ℕ) (t : Ts)
      → (a.pgalloc pgsize t.heap).0 ≢ 0
      → (a.pgalloc pgsize t.heap).0 ≡ q * 4096
      → pgallocz a t
        ≡ done (
          q * 4096,
          record {
            words = zero_entries 1024 0 (q * 4096) t.words;
            heap = (a.pgalloc pgsize t.heap).1;
          },
        )
  unfolding pgallocz
  pgallocz_page q t nz e =
      let test : ((a.pgalloc pgsize t.heap).0 == 0) ≡ false = ground (arith, nz) in
      rw test (
        ap
          (λ b. done (
            b,
            record { words = zero_entries 1024 0 b t.words; heap = (a.pgalloc pgsize t.heap).1 },
          ))
          e)

  -- The entry of a new table.
  abbrev table_set : ℕ → ℕ × Ts → Run (ℕ × Ts)
  table_set p r = done (r.0, store a p (bit_or (bit_or r.0 pte_p) (bit_or pte_w pte_u)) r.1)

  next-absent_none :
      (p : ℕ) (t : Ts)
      → t.words p % 2 ≡ 0
      → (a.pgalloc pgsize t.heap).0 ≡ 0
      → next_table a p (bit_or pte_w pte_u) t ≡ exit 1
  unfolding next_table
  next-absent_none p t h z =
      ap (λ c. if c then done (baseof (t.words p), t) else pgallocz a t >>= table_set p)
        (has-absent (t.words p) h)
      ∙ ap (λ m. m >>= table_set p) (pgallocz_none t z)

  abbrev with_table : (p q : ℕ) → Ts → Ts
  with_table p q t = record {
    words = set_word (zero_entries 1024 0 (q * 4096) t.words) p (q * 4096 + 7);
    heap = (a.pgalloc pgsize t.heap).1;
  }

  next-absent_page :
      (p q : ℕ) (t : Ts)
      → t.words p % 2 ≡ 0
      → (a.pgalloc pgsize t.heap).0 ≢ 0
      → (a.pgalloc pgsize t.heap).0 ≡ q * 4096
      → next_table a p (bit_or pte_w pte_u) t ≡ done (q * 4096, with_table p q t)
  unfolding next_table
  next-absent_page p q t h nz e =
      ap (λ c. if c then done (baseof (t.words p), t) else pgallocz a t >>= table_set p)
        (has-absent (t.words p) h)
      ∙ ap (λ m. m >>= table_set p) (pgallocz_page q t nz e)
      ∙ ap
          (λ v. done (
            q * 4096,
            store a p v (record {
              words = zero_entries 1024 0 (q * 4096) t.words;
              heap = (a.pgalloc pgsize t.heap).1;
            }),
          ))
          (table_entry q)

  with_table-Extended :
      (i q : ℕ) (t : Ts)
      → IsSpace a InUse space root t
      → i < 1024
      → t.words (entry (root * 4096) i) % 2 ≡ 0
      → q < 2 ^ 20
      → ¬ InUse q t.heap
      → InUse q (a.pgalloc pgsize t.heap).1
      → Extended a InUse space root i q t (with_table (entry (root * 4096) i) q t)
  with_table-Extended i q t h hi absent hq free used =
      let p = entry (root * 4096) i in
      let zeroed = zero_entries 1024 0 (q * 4096) t.words in
      let other : root ≢ q = λ e. free (subst (λ z. InUse z t.heap) e h.root_used) in
      record {
        index = hi;
        small = hq;
        absent = absent;
        free = free;
        used = used;
        kept = law.kept t.heap;
        added = set_word-same zeroed p (q * 4096 + 7);
        zeros = λ k hk.
            set_word-other zeroed p (q * 4096 + 7) (entry (q * 4096) k) (omega (arith, other))
            ∙ zero_entries-inside 1024 0 (q * 4096) t.words k (omega arith) (omega arith);
        others = λ b n o.
            set_word-other zeroed p (q * 4096 + 7) b n
            ∙ zero_entries-outside 1024 0 (q * 4096) t.words b (omega (arith, o));
      }

  -- The tables after a walk that found or added the table of `va`.
  pub record Walked (va : ℕ) (t t1 : Ts) : Type 0 where
    pub run : ptwalk a space va (bit_or pte_w pte_u) t ≡ done (table_slot t1.words root va, t1)
    pub is_space : IsSpace a InUse space root t1
    pub directory : t1.words (directory_slot root va) % 2 ≡ 1
    pub same : (v : ℕ) → translate t1.words root v ≡ translate t.words root v
    pub others : (b : ℕ) → InUse (b / 4096) t.heap → b / 4096 ≢ root → t1.words b ≡ t.words b

  -- A walk fails only if the allocator has no page left.
  pub ptwalk-Walked :
      (va : ℕ) (t : Ts)
      → IsSpace a InUse space root t
      → ((ptwalk a space va (bit_or pte_w pte_u) t ≡ exit 1) × ((a.pgalloc pgsize t.heap).0 ≡ 0))
        ⊎ ((t1 : Ts) × Walked va t t1)
  ptwalk-Walked va t h =
      let p = directory_slot root va in
      let i = va / 2 ^ 22 % 1024 in
      elim (ℕ_discrete (t.words p % 2) 0) [
        | no n ↦
            let d : t.words p % 2 ≡ 1 = omega (arith, n) in
            inr (
              t,
              record {
                run = ptwalk-present va t h d;
                is_space = h;
                directory = d;
                same = λ v. refl;
                others = λ b u r. refl;
              },
            )
        | yes d ↦ elim (ℕ_discrete (a.pgalloc pgsize t.heap).0 0) [
          | yes z ↦ inl (
            ptwalk_cases va t h
                ∙ ap (λ s. s >>= λ r. done (entry r.0 (va / 4096 % 1024), r.1))
                    (next-absent_none p t d z),
            z,
          )
          | no nz ↦
              let (q, e, hq, free, used) = law.fresh t.heap nz in
              let t1 = with_table p q t in
              let x = with_table-Extended i q t h (omega arith) d hq free used in
              inr (
                t1,
                record {
                  run =
                      ptwalk_cases va t h
                      ∙ ap (λ s. s >>= λ r. done (entry r.0 (va / 4096 % 1024), r.1))
                          (next-absent_page p q t d nz e)
                      ∙ ap (λ f. done (entry (f * 4096) (va / 4096 % 1024), t1))
                          (sym (added-frame a InUse space root i q t t1 h x));
                  is_space = extended-IsSpace a InUse space root i q t t1 h x;
                  directory = ap (λ (w : ℕ). w % 2) x.added ∙ omega arith;
                  same = extended-translate a InUse space root i q t t1 h x;
                  others = λ b u r.
                      x.others b (omega (arith, r))
                        (omega (arith, in_use_other a InUse space root i q t t1 h x (b / 4096) u));
                },
              )
        ]
      ]
