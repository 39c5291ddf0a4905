-- ===== src/Am/Native/Remap.antt =====
-- map of a page that is mapped already: its node is put into the list a second time.
use riscv64_cpu.Base.{true, some, ℕ, ◌≡◌, ◌≢◌, ◌%◌, ◌^◌}
use riscv64_cpu.Base.Run.{Run}
use riscv64_cpu.Am.Native.{System, Hash, PageMap, set_node, set_head}
use riscv64_cpu.Am.Native.Placed.{filled_node}
use riscv64_cpu.Am.Native.Chains.{UserPage, IsSystem, Vs}

module _ (os : System) (table : Hash) (pgsize pmem : ℕ) (law : IsSystem os pgsize) where
  module _ (h va pa prot page pp : ℕ) (s : Vs os table) (user : UserPage pgsize pmem va pa)
      (aligned : va % s.pgsize ≡ 0) (aligned' : pa % s.pgsize ≡ 0) (head : h ≢ 0) (node : pp ≢ 0)
      (found : table.find (va % 2 ^ 32) (s.heads h).hash ≡ some pp) (first : (s.heads h).head ≡ pp)
      (none_active : s.vm_head ≡ 0) (on : s.vme_enable ≡ true) (e : s.pgsize ≡ pgsize)
      (f : s.pmem ≡ pmem) where
    -- What `map` leaves.
    abbrev again : PageMap
    again = filled_node os table h va pa prot (s.heads h).head

    abbrev remapped : Vs os table
    remapped = set_head os table h (record (s.heads h) { head = pp }) (set_node os table pp again s)
