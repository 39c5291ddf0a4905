-- ===== src/Am/Native/Switch.antt =====
-- __am_switch: after it, user addresses show the pages of the new address space.
use riscv64_cpu.Base.{true, [], ℕ, List, if◌then◌else◌, ◌≡◌, ◌==◌, ◌⊎◌, ◌≢◌}
use riscv64_cpu.Base.Run.{done, Run}
use riscv64_cpu.Am.Native.{System, Hash, unmap_all, map_all, in_user_space}
use riscv64_cpu.Am.Native.Pages.{shown}
use riscv64_cpu.Am.Native.Chains.{IsSystem, Vs, Chain, AllMapped}

module _ (os : System) (table : Hash) (pgsize pmem : ℕ) (law : IsSystem os pgsize) where
  -- The pages of the address space whose head is at `h`; NULL stands for none.
  abbrev pub Lists : Vs os table → ℕ → List ℕ → Type 0
  Lists s h xs =
      ((h ≡ 0) × (xs ≡ [])) ⊎ ((h ≢ 0) × Chain os table pgsize pmem s.nodes (s.heads h).head xs)

  -- The address space at `h` is the one that user addresses show.
  pub record Active (h : ℕ) (xs : List ℕ) (s : Vs os table) : Type 0 where
    pub lists : Lists s h xs
    pub all : AllMapped os table s.nodes xs
    pub view :
        (b : ℕ)
        → in_user_space b ≡ true
        → os.view s.sys b ≡ shown os table pgsize pmem law s.nodes xs b

  abbrev old_pages : ℕ → Vs os table → Run (Vs os table)
  old_pages fuel s =
      if s.vm_head == 0 then done s else unmap_all os table fuel (s.heads s.vm_head).head s

  abbrev new_pages : ℕ → ℕ → Vs os table → Run (Vs os table)
  new_pages fuel h s = if h == 0 then done s else map_all os table fuel (s.heads h).head s
