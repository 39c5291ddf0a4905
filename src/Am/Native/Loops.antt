-- ===== src/Am/Native/Loops.antt =====
-- The loops of __am_switch over the pages of an address space.
use riscv64_cpu.Base.{
  zero, suc, true, false, refl, [], ◌∷◌, none, some, ℕ, Bool, List, ◌≡◌, if◌then◌else◌, ◌+◌, ◌^◌,
  ◌-◌, ◌%◌, ap, arith, length, ◌<◌, ◌==◌, ◌∙◌, sym,
}
use riscv64_cpu.Base.Run.{done, ◌>>=◌, abort}
use riscv64_cpu.Am.Native.{
  System, Hash, am_pmem_map, am_pmem_unmap, mmap_prot, unmap_all, map_all, set_mapped,
  in_user_space,
}
use riscv64_cpu.Am.Native.Chains.{
  IsSystem, Vs, Chain, Absent, AllMapped, Same, Chain-Same, marked, marked-Same, marked_other,
  marked_self, AllMapped-marked, UserPage,
}
use riscv64_cpu.Am.Native.Pages.{
  covered, shown, inside, Separate, covered-Same, shown-Same, Separate-Same, swap_none, shown_first,
}

module _ (os : System) (table : Hash) (pgsize pmem : ℕ) (law : IsSystem os pgsize) where
  -- What a loop leaves alone.
  pub record Keeps (xs : List ℕ) (s s1 : Vs os table) : Type 0 where
    pub pgsize_ : s1.pgsize ≡ s.pgsize
    pub pmem_ : s1.pmem ≡ s.pmem
    pub heads : s1.heads ≡ s.heads
    pub vm_head : s1.vm_head ≡ s.vm_head
    pub enabled : s1.vme_enable ≡ s.vme_enable
    pub same : Same os table s1.nodes s.nodes
    pub apart : (q : ℕ) → Absent os table q xs → s1.nodes q ≡ s.nodes q

  Keeps-self : (xs : List ℕ) (s : Vs os table) → Keeps xs s s
  Keeps-self xs s = record {
    pgsize_ = refl;
    pmem_ = refl;
    heads = refl;
    vm_head = refl;
    enabled = refl;
    same = λ q. (refl, refl, refl, refl);
    apart = λ q a. refl;
  }

  abbrev unmapped : ℕ → Vs os table → Vs os table
  unmapped va s = record s { sys = (os.munmap va pgsize s.sys).1 }

  am_pmem_unmap-done :
      (va : ℕ) (s : Vs os table)
      → in_user_space va ≡ true
      → va % pgsize ≡ 0
      → s.pgsize ≡ pgsize
      → am_pmem_unmap os table va s ≡ done (unmapped va s)
  unfolding am_pmem_unmap
  am_pmem_unmap-done va s u a e =
      ap
        (λ g.
          if (os.munmap va g s.sys).0
          then done (record s { sys = (os.munmap va g s.sys).1 })
          else abort)
        e
      ∙ ap (λ c. if c then done (unmapped va s) else abort) (law.unmaps va s.sys 0 u a).0

  -- Every page of the list is unmapped.
  pub record Unmapped (xs : List ℕ) (s s1 : Vs os table) : Type 0 where
    pub keeps : Keeps xs s s1
    pub view :
        (b : ℕ)
        → os.view s1.sys b
          ≡ (if covered os table pgsize pmem law s.nodes xs b then none else os.view s.sys b)

  pub Unmapped-none : (s : Vs os table) → Unmapped [] s s
  Unmapped-none s = record { keeps = Keeps-self [] s; view = λ b. refl }

  pub unmap_all-Unmapped :
      (fuel p : ℕ) (xs : List ℕ) (s : Vs os table)
      → length xs < fuel
      → Chain os table pgsize pmem s.nodes p xs
      → AllMapped os table s.nodes xs
      → s.pgsize ≡ pgsize
      → (s1 : Vs os table) × (unmap_all os table fuel p s ≡ done s1) × Unmapped xs s s1
  unfolding unmap_all
  unmap_all-Unmapped zero p xs s l c m e = absurd (omega (arith, l))
  unmap_all-Unmapped (suc fuel) p [] s l c m e =
      (s, (let z : (p == 0) ≡ true = ground (arith, c) in rw z refl), Unmapped-none s)
  unmap_all-Unmapped (suc fuel) p (x ∷ xs) s l (px, x0, absent, user, rest) (mapped, all) e =
      let n1 = marked os table x false s.nodes in
      let s0 = unmapped (s.nodes x).va s in
      let s1 : Vs os table = record s0 { nodes = n1 } in
      let same = marked-Same os table x false s.nodes in
      let (s2, run, u) =
        unmap_all-Unmapped fuel (s.nodes x).next xs s1 (omega (arith, l))
          (Chain-Same os table pgsize pmem n1 s.nodes (s.nodes x).next xs same rest)
          (AllMapped-marked os table x false s.nodes xs absent all) e in
      let z : (x == 0) ≡ false = ground (arith, x0) in
      let unmapping = am_pmem_unmap os table (s.nodes x).va s >>= λ t.
      unmap_all os table fuel (t.nodes x).next (set_mapped os table x false t) in
      (
        s2,
        ap (λ q. unmap_all os table (suc fuel) q s) px
            ∙ ap
                (λ c.
                  if c
                  then done s
                  else if (s.nodes x).is_mapped
                  then unmapping
                  else unmap_all os table fuel (s.nodes x).next s)
                z
            ∙ ap (λ c. if c then unmapping else unmap_all os table fuel (s.nodes x).next s) mapped
            ∙ ap
                (λ m. m >>= λ t.
                  unmap_all os table fuel (t.nodes x).next (set_mapped os table x false t))
                (am_pmem_unmap-done (s.nodes x).va s user.0 user.1 e)
            ∙ run,
        record {
          keeps = record {
            pgsize_ = u.keeps.pgsize_;
            pmem_ = u.keeps.pmem_;
            heads = u.keeps.heads;
            vm_head = u.keeps.vm_head;
            enabled = u.keeps.enabled;
            same = λ q.
                let (a, b, c, d) = u.keeps.same q in
                let (a', b', c', d') = same q in (a ∙ a', b ∙ b', c ∙ c', d ∙ d');
            apart = λ q a.
                u.keeps.apart q a.1 ∙ marked_other os table x false s.nodes q (λ i. a.0 (sym i));
          };
          view = λ b.
              u.view b
              ∙ ap (λ c. if c then none else os.view s1.sys b)
                  (covered-Same os table pgsize pmem law n1 s.nodes xs b same)
              ∙ ap (λ o. if covered os table pgsize pmem law s.nodes xs b then none else o)
                  (law.unmaps (s.nodes x).va s.sys b user.0 user.1).1
              ∙ swap_none (covered os table pgsize pmem law s.nodes xs b)
                  (inside os table pgsize pmem law (s.nodes x).va b) (os.view s.sys b);
        },
      )

  abbrev pub mapped_page : (va pa prot : ℕ) → Vs os table → Vs os table
  mapped_page va pa prot s = record s {
    sys = (os.mmap va pgsize (mmap_prot os table prot) ((pa + 2 ^ 64 - pmem) % 2 ^ 64) s.sys).1;
  }

  pub am_pmem_map-done :
      (va pa prot : ℕ) (s : Vs os table)
      → UserPage pgsize pmem va pa
      → s.pgsize ≡ pgsize
      → s.pmem ≡ pmem
      → am_pmem_map os table va pa prot s ≡ done (mapped_page va pa prot s)
  unfolding am_pmem_map
  am_pmem_map-done va pa prot s u e f =
      let pr = mmap_prot os table prot in
      let call : ℕ → ℕ → Bool × os.S = λ g m. os.mmap va g pr ((pa + 2 ^ 64 - m) % 2 ^ 64) s.sys in
      ap (λ g. if (call g s.pmem).0 then done (record s { sys = (call g s.pmem).1 }) else abort) e
      ∙ ap (λ m. if (call pgsize m).0 then done (record s { sys = (call pgsize m).1 }) else abort) f
      ∙ ap (λ c. if c then done (mapped_page va pa prot s) else abort)
          (law.maps va pr _ s.sys 0 u.0 u.1 u.2).0

  -- Every page of the list is mapped, and marked.
  pub record Mapped (xs : List ℕ) (s s1 : Vs os table) : Type 0 where
    pub keeps : Keeps xs s s1
    pub all : AllMapped os table s1.nodes xs
    pub view :
        (b : ℕ)
        → os.view s1.sys b ≡ (
            if covered os table pgsize pmem law s.nodes xs b
            then shown os table pgsize pmem law s.nodes xs b
            else os.view s.sys b)

  pub Mapped-none : (s : Vs os table) → Mapped [] s s
  Mapped-none s = record { keeps = Keeps-self [] s; all = tt; view = λ b. refl }

  pub map_all-Mapped :
      (fuel p : ℕ) (xs : List ℕ) (s : Vs os table)
      → length xs < fuel
      → Chain os table pgsize pmem s.nodes p xs
      → Separate os table pgsize pmem law s.nodes xs
      → s.pgsize ≡ pgsize
      → s.pmem ≡ pmem
      → (s1 : Vs os table) × (map_all os table fuel p s ≡ done s1) × Mapped xs s s1
  unfolding map_all
  map_all-Mapped zero p xs s l c m e f = absurd (omega (arith, l))
  map_all-Mapped (suc fuel) p [] s l c m e f =
      (s, (let z : (p == 0) ≡ true = ground (arith, c) in rw z refl), Mapped-none s)
  map_all-Mapped (suc fuel) p (x ∷ xs) s l (px, x0, absent, user, rest) (alone, others) e f =
      let n1 = marked os table x true s.nodes in
      let va = (s.nodes x).va in
      let pa = (s.nodes x).pa in
      let prot = (s.nodes x).prot in
      let s0 = mapped_page va pa prot s in
      let s1 : Vs os table = record s0 { nodes = n1 } in
      let same = marked-Same os table x true s.nodes in
      let (s2, run, u) =
        map_all-Mapped fuel (s.nodes x).next xs s1 (omega (arith, l))
          (Chain-Same os table pgsize pmem n1 s.nodes (s.nodes x).next xs same rest)
          (Separate-Same os table pgsize pmem law n1 s.nodes xs same others) e f in
      let z : (x == 0) ≡ false = ground (arith, x0) in
      let mapping = am_pmem_map os table va pa prot s >>= λ t.
      map_all os table fuel (t.nodes x).next (set_mapped os table x true t) in
      (
        s2,
        ap (λ q. map_all os table (suc fuel) q s) px
            ∙ ap (λ c. if c then done s else if in_user_space va then mapping else abort) z
            ∙ ap (λ c. if c then mapping else abort) user.0
            ∙ ap
                (λ m.
                  m >>= λ t. map_all os table fuel (t.nodes x).next (set_mapped os table x true t))
                (am_pmem_map-done va pa prot s user e f)
            ∙ run,
        record {
          keeps = record {
            pgsize_ = u.keeps.pgsize_;
            pmem_ = u.keeps.pmem_;
            heads = u.keeps.heads;
            vm_head = u.keeps.vm_head;
            enabled = u.keeps.enabled;
            same = λ q.
                let (a, b, c, d) = u.keeps.same q in
                let (a', b', c', d') = same q in (a ∙ a', b ∙ b', c ∙ c', d ∙ d');
            apart = λ q a.
                u.keeps.apart q a.1 ∙ marked_other os table x true s.nodes q (λ i. a.0 (sym i));
          };
          all = (
            ap (λ y. y.is_mapped) (u.keeps.apart x absent) ∙ marked_self os table x true s.nodes,
            u.all,
          );
          view = λ b.
              u.view b
              ∙ ap (λ c. if c then shown os table pgsize pmem law n1 xs b else os.view s1.sys b)
                  (covered-Same os table pgsize pmem law n1 s.nodes xs b same)
              ∙ ap
                  (λ o.
                    if covered os table pgsize pmem law s.nodes xs b then o else os.view s1.sys b)
                  (shown-Same os table pgsize pmem law n1 s.nodes xs b same)
              ∙ ap
                  (λ o.
                    if covered os table pgsize pmem law s.nodes xs b
                    then shown os table pgsize pmem law s.nodes xs b
                    else o)
                  (law.maps va (mmap_prot os table prot) ((pa + 2 ^ 64 - pmem) % 2 ^ 64) s.sys b
                    user.0 user.1 user.2).1
              ∙ shown_first (inside os table pgsize pmem law va b)
                  (covered os table pgsize pmem law s.nodes xs b)
                  (some (((pa + 2 ^ 64 - pmem) % 2 ^ 64) + (b - va), mmap_prot os table prot))
                  (shown os table pgsize pmem law s.nodes xs b) (os.view s.sys b) (alone b);
        },
      )
