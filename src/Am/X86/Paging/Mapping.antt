-- ===== src/Am/X86/Paging/Mapping.antt =====
-- map against the translation of the processor.
use riscv64_cpu.Base.{
  inl, inr, none, some, false, refl, true, ℕ, ◌%◌, ◌≡◌, ap, arith, ◌/◌, ◌<◌, ◌*◌, ◌^◌, ◌∙◌, ◌≢◌,
  sym, ◌≤◌, Option, bit_or, ◌+◌, ◌==◌, Bool, if◌then◌else◌, not, ◌||◌, ◌⊎◌,
}
use riscv64_cpu.Am.X86.Paging.{
  Allocator, Tables, entry, store, map, ptwalk, in_uvm_area, baseof, mmap_none, set_entry, pte_w,
  pte_u, pgsize,
}
use riscv64_cpu.Am.X86.Paging.Entries.{
  frame, baseof_lem, has-present, page_entry, frame-entry, has-absent,
}
use riscv64_cpu.Am.X86.Paging.Translation.{
  IsSpace, translate, directory_slot, table_slot, IsAllocator, translate-no_page, translate-page,
  translate-no_table,
}
use native.Mathlib.Decide.{ℕ_discrete}
use riscv64_cpu.Base.Run.{Run, ◌>>=◌, done, exit}
use riscv64_cpu.Am.X86.Paging.Walk.{Walked, ptwalk-present, ptwalk-Walked}
use riscv64_cpu.Am.X86.Paging.Stored.{
  stored-IsSpace, stored-directory, stored-slot, stored-translate_other,
}

-- Where the checks of `map` let it go on.
pub record IsUserPage (va : ℕ) : Type 0 where
  pub above : 0x40000000 ≤ va
  pub below : va < 0x80000000
  pub aligned : va % 4096 ≡ 0

module _ (a : Allocator) (InUse : ℕ → a.H → Type 0) (law : IsAllocator a InUse) (space root va : ℕ)
    (user : IsUserPage va) where
  -- `map` behind its checks.
  map_body : (pa prot : ℕ) → Tables a → Run (Tables a)
  map_body pa prot t = do
    (e, t1) ← ptwalk a space va (bit_or pte_w pte_u) t
    t2 ← set_entry a e pa prot t1
    (e', t3) ← ptwalk a space va (bit_or pte_w pte_u) t2
    done t3

  abbrev misaligned : (va_base pa_base pa : ℕ) → Bool
  misaligned va_base pa_base pa = not (va == va_base) || not (pa == pa_base)

  aligned_both : (pa : ℕ) → misaligned va pa pa ≡ false
  aligned_both pa =
      let same : (va == va) ≡ true = ground arith in
      let same' : (pa == pa) ≡ true = ground arith in rw (same, same') refl

  map_checked :
      (q prot : ℕ) (t : Tables a)
      → q < 2 ^ 20
      → map a space va (q * 4096) prot t ≡ map_body (q * 4096) prot t
  unfolding map map_body
  map_checked q prot t hq =
      let pa = q * 4096 in
      let range : in_uvm_area a va ≡ true = ground (arith, user.above, user.below) in
      let page : baseof va ≡ va = baseof_lem va ∙ omega (arith, user.below, user.aligned) in
      let page' : baseof pa ≡ pa = baseof_lem pa ∙ omega arith in
      ap
        (λ c.
          if not c
          then exit 1
          else if misaligned (baseof va) (baseof pa) pa
          then exit 1
          else map_body pa prot t)
        range
      ∙ ap (λ b. if misaligned b (baseof pa) pa then exit 1 else map_body pa prot t) page
      ∙ ap (λ b. if misaligned va b pa then exit 1 else map_body pa prot t) page'
      ∙ ap (λ c. if c then exit 1 else map_body pa prot t) (aligned_both pa)

  -- The body where the entry is set to `v`.
  map_body-stored :
      (pa prot v : ℕ) (t t1 : Tables a)
      → Walked a InUse law space root va t t1
      → set_entry a (table_slot t1.words root va) pa prot t1
        ≡ done (store a (table_slot t1.words root va) v t1)
      → map_body pa prot t ≡ done (store a (table_slot t1.words root va) v t1)
  unfolding map_body
  map_body-stored pa prot v t t1 w e =
      let t2 = store a (table_slot t1.words root va) v t1 in
      let again =
        ptwalk-present a InUse law space root va t2
          (stored-IsSpace a InUse space root va v t1 w.is_space w.directory)
          (stored-directory a InUse space root va v t1 w.is_space w.directory) in
      rw (w.run, e, again) refl

  -- `set_entry` on an entry that is not present, and on one that is.
  set_entry-absent :
      (e q prot : ℕ) (t : Tables a)
      → q < 2 ^ 20
      → prot ≢ mmap_none
      → t.words e % 2 ≡ 0
      → (v : ℕ) × (v % 2 ≡ 1)
        × (frame v ≡ q)
        × (set_entry a e (q * 4096) prot t ≡ done (store a e v t))
  unfolding set_entry
  set_entry-absent e q prot t hq np h =
      let (f, hf, odd, w) = page_entry q prot in
      let test : (prot == mmap_none) ≡ false = ground (arith, np) in
      (
        q * 4096 + f,
        omega (arith, odd),
        frame-entry q f hq hf,
        rw (test, has-absent (t.words e) h, w) refl,
      )

  set_entry-none :
      (e pa : ℕ) (t : Tables a)
      → t.words e % 2 ≡ 1
      → set_entry a e pa mmap_none t ≡ done (store a e 0 t)
  unfolding set_entry
  set_entry-none e pa t h = rw (has-present (t.words e) h) refl

  below-page : (off : ℕ) → off < 4096 → (va + off) / 4096 ≡ va / 4096
  below-page off h = omega (arith, user.aligned)

  -- The page of `va` has one entry.
  abbrev pub Translated : (t3 : Tables a) → ℕ → Option ℕ → Type 0
  Translated t3 off r = translate t3.words root (va + off) ≡ r

  page_slots :
      (words : ℕ → ℕ) (off : ℕ)
      → off < 4096
      → (directory_slot root (va + off) ≡ directory_slot root va)
        × (table_slot words root (va + off) ≡ table_slot words root va)
  page_slots words off h =
      let i : (va + off) / 2 ^ 22 % 1024 ≡ va / 2 ^ 22 % 1024 = omega (arith, user.aligned) in
      let j : (va + off) / 4096 % 1024 ≡ va / 4096 % 1024 = omega (arith, below-page off h) in
      let d : directory_slot root (va + off) ≡ directory_slot root va =
        ap (entry (root * 4096)) i in
      (
        d,
        ap (λ s. entry (frame (words s) * 4096) ((va + off) / 4096 % 1024)) d
            ∙ ap (entry (frame (words (directory_slot root va)) * 4096)) j,
      )

  -- What a store to the entry of `va` leaves.
  pub record Set (v : ℕ) (t t3 : Tables a) : Type 0 where
    pub is_space : IsSpace a InUse space root t3
    pub directory : t3.words (directory_slot root va) % 2 ≡ 1
    pub slot : t3.words (table_slot t3.words root va) ≡ v
    pub pages :
        (x : ℕ)
        → x < 2 ^ 32
        → x / 4096 ≢ va / 4096
        → translate t3.words root x ≡ translate t.words root x

  Walked-Set :
      (v : ℕ) (t t1 : Tables a)
      → (w : Walked a InUse law space root va t t1)
      → Set v t (store a (table_slot t1.words root va) v t1)
  Walked-Set v t t1 w = record {
    is_space = stored-IsSpace a InUse space root va v t1 w.is_space w.directory;
    directory = stored-directory a InUse space root va v t1 w.is_space w.directory;
    slot = stored-slot a InUse space root va v t1 w.is_space w.directory;
    pages = λ x hx n.
        stored-translate_other a InUse space root va v t1 w.is_space w.directory x hx
          (omega (arith, user.below)) n
        ∙ w.same x;
  }

  pub set-translate :
      (v q off : ℕ) (t t3 : Tables a)
      → Set v t t3
      → v % 2 ≡ 1
      → frame v ≡ q
      → off < 4096
      → Translated t3 off (some (q * 4096 + off))
  set-translate v q off t t3 s odd f h =
      let (d, e) = page_slots t3.words off h in
      let at_ : t3.words (table_slot t3.words root (va + off)) ≡ v = ap t3.words e ∙ s.slot in
      let rest : (va + off) % 4096 ≡ off = omega (arith, user.aligned) in
      translate-page t3.words root (va + off) (ap (λ p. t3.words p % 2) d ∙ s.directory)
        (ap (λ (w : ℕ). w % 2) at_ ∙ odd)
      ∙ ap (λ (w : ℕ). some (frame w * 4096 + (va + off) % 4096)) at_
      ∙ ap (λ g. some (g * 4096 + (va + off) % 4096)) f
      ∙ ap (λ r. some (q * 4096 + r)) rest

  pub set-untranslated :
      (off : ℕ) (t t3 : Tables a) → Set 0 t t3 → off < 4096 → Translated t3 off none
  set-untranslated off t t3 s h =
      let (d, e) = page_slots t3.words off h in
      translate-no_page t3.words root (va + off)
        (ap (λ p. t3.words p % 2) e ∙ ap (λ (w : ℕ). w % 2) s.slot)

  pub absent-entry :
      (t t1 : Tables a)
      → Walked a InUse law space root va t t1
      → translate t.words root va ≡ none
      → t1.words (table_slot t1.words root va) % 2 ≡ 0
  absent-entry t t1 w h = elim (ℕ_discrete (t1.words (table_slot t1.words root va) % 2) 0) [
    | yes e ↦ e
    | no n ↦
        let there = translate-page t1.words root va w.directory (omega (arith, n)) in
        let e : none ≡ some _ = sym h ∙ sym (w.same va) ∙ there in absurd (cc e)
  ]

  -- The run of `map` that sets an entry, and the one that clears it.
  pub map_set :
      (q prot : ℕ) (t : Tables a)
      → IsSpace a InUse space root t
      → q < 2 ^ 20
      → prot ≢ mmap_none
      → translate t.words root va ≡ none
      → ((map a space va (q * 4096) prot t ≡ exit 1) × ((a.pgalloc pgsize t.heap).0 ≡ 0))
        ⊎ ((v : ℕ) × (t3 : Tables a) × (map a space va (q * 4096) prot t ≡ done t3)
            × (v % 2 ≡ 1)
            × (frame v ≡ q)
            × Set v t t3)
  unfolding map_body
  map_set q prot t h hq np free = elim (ptwalk-Walked a InUse law space root va t h) [
    | inl (stops, z) ↦ inl (
      map_checked q prot t hq
          ∙ ap
              (λ s. s >>= λ r. set_entry a r.0 (q * 4096) prot r.1 >>= λ t2.
                ptwalk a space va (bit_or pte_w pte_u) t2 >>= λ r'. done r'.1)
              stops,
      z,
    )
    | inr (t1, w) ↦
        let (v, odd, f, e) =
          set_entry-absent (table_slot t1.words root va) q prot t1 hq np
            (absent-entry t t1 w free) in
        inr (
          v,
          store a (table_slot t1.words root va) v t1,
          map_checked q prot t hq ∙ map_body-stored (q * 4096) prot v t t1 w e,
          odd,
          f,
          Walked-Set v t t1 w,
        )
  ]

  translated-directory :
      (t : Tables a) (p : ℕ)
      → translate t.words root va ≡ some p
      → t.words (directory_slot root va) % 2 ≡ 1
  translated-directory t p there = elim (ℕ_discrete (t.words (directory_slot root va) % 2) 0) [
    | no n ↦ omega (arith, n)
    | yes e ↦
        let f : none ≡ some p = sym (translate-no_table t.words root va e) ∙ there in absurd (cc f)
  ]

  translated-entry :
      (t : Tables a) (p : ℕ)
      → translate t.words root va ≡ some p
      → t.words (directory_slot root va) % 2 ≡ 1
      → t.words (table_slot t.words root va) % 2 ≡ 1
  translated-entry t p there d = elim (ℕ_discrete (t.words (table_slot t.words root va) % 2) 0) [
    | no n ↦ omega (arith, n)
    | yes e ↦
        let f : none ≡ some p = sym (translate-no_page t.words root va e) ∙ there in absurd (cc f)
  ]

  pub map_cleared :
      (p q : ℕ) (t : Tables a)
      → IsSpace a InUse space root t
      → q < 2 ^ 20
      → translate t.words root va ≡ some p
      → (t3 : Tables a) × (map a space va (q * 4096) mmap_none t ≡ done t3) × Set 0 t t3
  unfolding map_body
  map_cleared p q t h hq there =
      let d = translated-directory t p there in
      let odd = translated-entry t p there d in
      let w : Walked a InUse law space root va t t = record {
        run = ptwalk-present a InUse law space root va t h d;
        is_space = h;
        directory = d;
        same = λ v. refl;
        others = λ b u r. refl;
      } in
      (
        store a (table_slot t.words root va) 0 t,
        map_checked q mmap_none t hq
            ∙ map_body-stored (q * 4096) mmap_none 0 t t w
                (set_entry-none (table_slot t.words root va) (q * 4096) t odd),
        Walked-Set 0 t t w,
      )
