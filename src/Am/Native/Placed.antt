-- ===== src/Am/Native/Placed.antt =====
-- map behind its checks.
use riscv64_cpu.Base.{
  true, false, ℕ, ◌≡◌, ◌≢◌, ◌%◌, ◌==◌, ◌||◌, arith, ap, if◌then◌else◌, not, ◌∙◌, ◌^◌,
}
use riscv64_cpu.Base.Run.{Run, done, abort, ◌>>=◌}
use riscv64_cpu.Am.Native.{
  System, Hash, PageMap, am_pmem_map, node_of, map, set_node, set_head, set_mapped, in_user_space,
}
use riscv64_cpu.Am.Native.Chains.{Vs}

module _ (os : System) (table : Hash) (h va pa prot : ℕ) where
  -- The node as `map` fills it.
  abbrev pub filled_node : ℕ → PageMap
  filled_node next = record { va = va; pa = pa; next = next; prot = prot; is_mapped = false }

  -- The rest of `map` once the node is known.
  abbrev pub placed : ℕ × Vs os table → Run (Vs os table)
  placed r =
      let s1 = r.1 in
      let s2 =
        set_head os table h (record (s1.heads h) { head = r.0 })
          (set_node os table r.0 (filled_node (s1.heads h).head) s1) in
      let now =
        am_pmem_map os table va pa prot s2 >>= λ s3. done (set_mapped os table r.0 true s3) in
      if h == s2.vm_head then now else done s2

  -- What passes the checks finds its node and places it.
  pub map-placed :
      (page : ℕ) (s : Vs os table)
      → in_user_space va ≡ true
      → va % s.pgsize ≡ 0
      → pa % s.pgsize ≡ 0
      → h ≢ 0
      → map os table h va pa prot page s
        ≡ (node_of os table h va page (table.find (va % 2 ^ 32) (s.heads h).hash) s >>= placed)
  unfolding map
  map-placed page s user aligned aligned' head =
      let a : (va % s.pgsize == 0) ≡ true = ground (arith, aligned) in
      let b : (pa % s.pgsize == 0) ≡ true = ground (arith, aligned') in
      let c : (h == 0) ≡ false = ground (arith, head) in
      let rest : Run (Vs os table) =
        node_of os table h va page (table.find (va % 2 ^ 32) (s.heads h).hash) s >>= placed in
      ap
        (λ t.
          if not t
          then abort
          else if not (va % s.pgsize == 0) || not (pa % s.pgsize == 0)
          then abort
          else if h == 0
          then abort
          else rest)
        user
      ∙ ap
          (λ t. if not t || not (pa % s.pgsize == 0) then abort else if h == 0 then abort else rest)
          a
      ∙ ap (λ t. if not t then abort else if h == 0 then abort else rest) b
      ∙ ap (λ t. if t then abort else rest) c
