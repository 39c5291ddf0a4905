-- ===== src/Am/Native/Tests.antt =====
-- Address spaces of the native target at a system that is a function.
use riscv64_cpu.Base.{
  true, false, refl, some, none, [], ◌∷◌, ℕ, Option, if◌then◌else◌, ◌==◌, leb, ltb, ◌&&◌, ◌+◌, ◌-◌,
  Bool,
}
use riscv64_cpu.Am.Native.{System, Hash, PageMap, VmHead}
use riscv64_cpu.Am.Native.Chains.{IsSystem, Vs}
use riscv64_cpu.Am.Native.Pages.{shown}

abbrev linux : System
linux = record {
  S = ℕ → Option (ℕ × ℕ);
  mmap = λ va l prot offset s.
      (true, λ b. if leb va b && ltb b (va + l) then some (offset + (b - va), prot) else s b);
  munmap = λ va l s. (true, λ b. if leb va b && ltb b (va + l) then none else s b);
  view = λ s. s;
  prot_none = 0;
  prot_read = 1;
  prot_write = 2;
  prot_exec = 4;
}

linux_works : IsSystem linux 4096
linux_works = record {
  maps = λ va prot offset s b h a o. (refl, refl);
  unmaps = λ va s b h a. (refl, refl);
}

abbrev hsearch : Hash
hsearch = record {
  T = ℕ → Option ℕ;
  create = λ n. some (λ k. none);
  find = λ key t. t key;
  insert = λ key node t. some (λ k. if k == key then some node else t k);
}

abbrev page_map : (va next : ℕ) → Bool → PageMap
page_map va next b = record { va = va; pa = 0x1002000; next = next; prot = 3; is_mapped = b }

-- A page at 100, and two at 101 and 102.
abbrev nodes : ℕ → PageMap
nodes q =
    if q == 100
    then page_map 0x40000000 0 true
    else if q == 101
    then page_map 0x40001000 102 false
    else page_map 0x40003000 0 false

abbrev heads : ℕ → VmHead linux hsearch
heads h = record {
  head = if h == 50 then 100 else 101;
  hash = λ k. if k == 0x40001000 then some 101 else none;
  nr_page = 2;
}

-- The address space at 50 is active.
abbrev running : Vs linux hsearch
running = record {
  pgsize = 4096;
  pmem = 0x1000000;
  nodes = nodes;
  heads = heads;
  vm_head = 50;
  vme_enable = true;
  sys = shown linux hsearch 4096 0x1000000 linux_works nodes (100 ∷ []);
}

-- No address space is active.
abbrev idle : Vs linux hsearch
idle = record running { vm_head = 0; sys = λ b. none }

-- The hash table with a third page, at 103.
abbrev third : ℕ → Option ℕ
third k = if k == 0x40002000 then some 103 else (heads 50).hash k
