-- ===== src/Am/Native/Added.antt =====
-- map of a new page in the active address space: its addresses show the page at once.
use riscv64_cpu.Base.{true, some, none, ℕ, List, ◌≡◌, ◌≢◌, ◌%◌, ◌+◌, ◌^◌}
use riscv64_cpu.Base.Run.{Run}
use riscv64_cpu.Am.Native.{System, Hash, set_node, set_head, set_mapped}
use riscv64_cpu.Am.Native.Chains.{UserPage, IsSystem, Vs, Absent}
use riscv64_cpu.Am.Native.Loops.{mapped_page}
use riscv64_cpu.Am.Native.Placed.{filled_node}

module _ (os : System) (table : Hash) (pgsize pmem : ℕ) (law : IsSystem os pgsize)
    (h va pa prot page : ℕ) (xs : List ℕ) (s : Vs os table) (t : table.T)
    (user : UserPage pgsize pmem va pa) (aligned : va % s.pgsize ≡ 0) (aligned' : pa % s.pgsize ≡ 0)
    (head : h ≢ 0) (allocated : page ≢ 0) (fresh : Absent os table page xs)
    (missing : table.find (va % 2 ^ 32) (s.heads h).hash ≡ none)
    (room : table.insert (va % 2 ^ 32) page (s.heads h).hash ≡ some t) (here : s.vm_head ≡ h)
    (e : s.pgsize ≡ pgsize) (f : s.pmem ≡ pmem) where
  -- The states of `map`: with the page entered, in the list, and mapped.
  abbrev with_entry : Vs os table
  with_entry =
      set_head os table h (record (s.heads h) { hash = t; nr_page = (s.heads h).nr_page + 1 }) s

  abbrev with_node : Vs os table
  with_node =
      set_head os table h (record (with_entry.heads h) { head = page })
        (set_node os table page (filled_node os table h va pa prot (with_entry.heads h).head)
          with_entry)

  abbrev added : Vs os table
  added = set_mapped os table page true (mapped_page os table pgsize pmem law va pa prot with_node)
