-- ===== src/Am/Native.antt =====
-- The abstract machine on Linux, abstract-machine/am/src/native: vme.c, and the mapping of pages in
-- platform.c. Pointers are addresses, 0 is NULL.
pub mod Added
pub mod Chains
pub mod Loops
pub mod Pages
pub mod Placed
pub mod Remap
pub mod Switch
mod Tests
use riscv64_cpu.Base.{
  none, some, zero, suc, true, false, ℕ, Bool, Option, if◌then◌else◌, ◌%◌, bit_and, leb, not, ◌&&◌,
  ◌==◌, ◌^◌, bit_or, ltb, ◌+◌, ◌-◌, ◌||◌, ◌/◌,
}
use riscv64_cpu.Base.Run.{Run, done, abort, fault, out_of_fuel, ◌>>=◌}

-- The system: its calls, which may fail, and the mapped file of the physical memory. `view` is what
-- an address shows: a place in the file, and the protection.
pub record System : Type 1 where
  pub S : Type 0
  pub mmap : (va length prot offset : ℕ) → S → Bool × S
  pub munmap : (va length : ℕ) → S → Bool × S
  pub view : S → ℕ → Option (ℕ × ℕ)
  pub prot_none : ℕ
  pub prot_read : ℕ
  pub prot_write : ℕ
  pub prot_exec : ℕ

-- The hash table of <search.h>, whose keys are the texts of addresses at 32 bits.
pub record Hash : Type 1 where
  pub T : Type 0
  pub create : (max_pg : ℕ) → Option T
  pub find : (key : ℕ) → T → Option ℕ
  pub insert : (key node : ℕ) → T → Option T

-- `PageMap`, without its key.
pub record PageMap : Type 0 where
  pub va : ℕ
  pub pa : ℕ
  pub next : ℕ
  pub prot : ℕ
  pub is_mapped : Bool

-- USER_SPACE
abbrev pub user_start : ℕ
user_start = 0x40000000

abbrev pub user_end : ℕ
user_end = 0xc0000000

abbrev pub in_user_space : ℕ → Bool
in_user_space va = leb user_start va && ltb va user_end

module _ (os : System) (table : Hash) where
  -- `VMHead`
  pub record VmHead : Type 0 where
    pub head : ℕ
    pub hash : table.T
    pub nr_page : ℕ

  -- The page size, where the physical memory stands, the nodes and heads by their addresses,
  -- `thiscpu->vm_head`, `vme_enable`, and the system.
  pub record Vme : Type 0 where
    pub pgsize : ℕ
    pub pmem : ℕ
    pub nodes : ℕ → PageMap
    pub heads : ℕ → VmHead
    pub vm_head : ℕ
    pub vme_enable : Bool
    pub sys : os.S

  abbrev pub set_node : ℕ → PageMap → Vme → Vme
  set_node p x s = record s { nodes = λ q. if q == p then x else s.nodes q }

  -- The protection of a page; a page that can be read can be executed.
  abbrev pub mmap_prot : (prot : ℕ) → ℕ
  mmap_prot prot =
      let readable =
        if bit_and prot 1 == 0
        then os.prot_none
        else bit_or os.prot_none (bit_or os.prot_read os.prot_exec) in
      if bit_and prot 2 == 0 then readable else bit_or readable os.prot_write

  -- `__am_pmem_map`
  unfoldable pub am_pmem_map : (va pa prot : ℕ) → Vme → Run Vme
  am_pmem_map va pa prot s =
      let (ok, sys) =
        os.mmap va s.pgsize (mmap_prot prot) ((pa + 2 ^ 64 - s.pmem) % 2 ^ 64) s.sys in
      if ok then done (record s { sys = sys }) else abort

  -- `__am_pmem_unmap`
  unfoldable pub am_pmem_unmap : (va : ℕ) → Vme → Run Vme
  am_pmem_unmap va s =
      let (ok, sys) = os.munmap va s.pgsize s.sys in
      if ok then done (record s { sys = sys }) else abort

  abbrev pub set_mapped : ℕ → Bool → Vme → Vme
  set_mapped p b s = set_node p (record (s.nodes p) { is_mapped = b }) s

  -- The first loop of `__am_switch`, from the node `p` on, on fuel.
  unfoldable pub unmap_all : ℕ → (p : ℕ) → Vme → Run Vme
  unfolding am_pmem_unmap
  unmap_all zero p s = out_of_fuel
  unmap_all (suc fuel) p s =
      let unmapped = am_pmem_unmap (s.nodes p).va s >>= λ s1.
      unmap_all fuel (s1.nodes p).next (set_mapped p false s1) in
      let skipped = unmap_all fuel (s.nodes p).next s in
      if p == 0 then done s else if (s.nodes p).is_mapped then unmapped else skipped

  -- The second loop of `__am_switch`.
  unfoldable pub map_all : ℕ → (p : ℕ) → Vme → Run Vme
  unfolding am_pmem_map
  map_all zero p s = out_of_fuel
  map_all (suc fuel) p s =
      let mapped = am_pmem_map (s.nodes p).va (s.nodes p).pa (s.nodes p).prot s >>= λ s1.
      map_all fuel (s1.nodes p).next (set_mapped p true s1) in
      if p == 0 then done s else if in_user_space (s.nodes p).va then mapped else abort

  -- `__am_switch` to a context whose `vm_head` is `head`.
  unfoldable pub am_switch : ℕ → (head : ℕ) → Vme → Run Vme
  unfolding unmap_all map_all
  am_switch fuel head s =
      let old = if s.vm_head == 0 then done s else unmap_all fuel (s.heads s.vm_head).head s in
      let new : Vme → Run Vme =
        λ s1. if head == 0 then done s1 else map_all fuel (s1.heads head).head s1 in
      if not s.vme_enable
      then done s
      else if head == s.vm_head
      then done s
      else (old >>= new >>= λ s2. done (record s2 { vm_head = head }))

  abbrev pub set_head : ℕ → VmHead → Vme → Vme
  set_head p x s = record s { heads = λ q. if q == p then x else s.heads q }

  -- The node of `map` for the page `va`: the one that is found, or the page `page` from the
  -- allocator, which is entered.
  unfoldable pub entered : (vm_head page : ℕ) → Option table.T → Vme → Run (ℕ × Vme)
  entered vm_head page none s = abort
  entered vm_head page (some t) s = done (
    page,
    set_head vm_head
        (record (s.heads vm_head) { hash = t; nr_page = (s.heads vm_head).nr_page + 1 }) s,
  )

  unfoldable pub node_of : (vm_head va page : ℕ) → Option ℕ → Vme → Run (ℕ × Vme)
  unfolding entered
  node_of vm_head va page (some pp) s = done (pp, s)
  node_of vm_head va page none s =
      if page == 0
      then fault
      else entered vm_head page (table.insert (va % 2 ^ 32) page (s.heads vm_head).hash) s

  -- `map`, where `vm_head` is `as->ptr` and `page` what `pgalloc` would return.
  unfoldable pub map : (vm_head va pa prot page : ℕ) → Vme → Run Vme
  unfolding node_of am_pmem_map
  map vm_head va pa prot page s =
      if not (in_user_space va)
      then abort
      else if not (va % s.pgsize == 0) || not (pa % s.pgsize == 0)
      then abort
      else if vm_head == 0
      then abort
      else (node_of vm_head va page (table.find (va % 2 ^ 32) (s.heads vm_head).hash) s >>= λ r.
          let s1 = r.1 in
          let s2 =
            set_head vm_head (record (s1.heads vm_head) { head = r.0 })
              (set_node r.0
                (record {
                  va = va;
                  pa = pa;
                  next = (s1.heads vm_head).head;
                  prot = prot;
                  is_mapped = false;
                })
                s1) in
          let now = am_pmem_map va pa prot s2 >>= λ s3. done (set_mapped r.0 true s3) in
          if vm_head == s2.vm_head then now else done s2)

  -- `vme_init` and `protect`, with what `pgalloc` returned.
  unfoldable pub vme_init : Vme → Vme
  vme_init s = record s { vme_enable = true }

  unfoldable pub protect : (page : ℕ) → Vme → Run (ℕ × Vme)
  protect page s =
      if page == 0 then abort else elim (table.create ((user_end - user_start) / s.pgsize)) [
        | none ↦ abort
        | some t ↦ done (page, set_head page (record { head = 0; hash = t; nr_page = 0 }) s)
      ]

  -- `__am_in_userspace`
  unfoldable pub am_in_userspace : (addr : ℕ) → Vme → Bool
  am_in_userspace addr s = s.vme_enable && not (s.vm_head == 0) && in_user_space addr
