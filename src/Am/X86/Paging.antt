-- ===== src/Am/X86/Paging.antt =====
-- x86/qemu/vme.c in its configuration of 32 bits: page tables of two levels. The memory is read by
-- its words of 32 bits at their addresses, and `space` is the address of the field `ptr` of an
-- AddrSpace.
pub mod Entries
pub mod Translation
pub mod Extend
pub mod Walk
pub mod Stored
pub mod Mapping
pub mod Maps
mod Tests
use riscv64_cpu.Base.{
  zero, suc, true, false, [], ◌∷◌, List, Bool, ℕ, if◌then◌else◌, bit_and, bit_or, leb, not, ◌+◌,
  ◌==◌, ◌&&◌, ◌*◌, ◌/◌, ◌^◌, ◌||◌, ltb, ◌-◌,
}
use riscv64_cpu.Base.Run.{Run, done, exit, out_of_fuel, ◌>>=◌}

-- The functions that vme_init is given: the allocator of pages, over its own state.
pub record Allocator : Type 1 where
  pub H : Type 0
  pub pgalloc : ℕ → H → ℕ × H
  pub pgfree : ℕ → H → H

-- `struct ptinfo`, without the name.
pub record PtInfo : Type 0 where
  pub mask : ℕ
  pub shift : ℕ
  pub bits : ℕ

-- `mmu`
abbrev pub pgsize : ℕ
pgsize = 4096

abbrev pub page_directory : PtInfo
page_directory = record { mask = 0xffc00000; shift = 22; bits = 10 }

abbrev pub page_table : PtInfo
page_table = record { mask = 0x003ff000; shift = 12; bits = 10 }

abbrev pub pgtables : List PtInfo
pgtables = record { mask = 0; shift = 0; bits = 0 } ∷ page_directory ∷ page_table ∷ []

abbrev pub pte_p : ℕ
pte_p = 0x001

abbrev pub pte_w : ℕ
pte_w = 0x002

abbrev pub pte_u : ℕ
pte_u = 0x004

abbrev pub mmap_none : ℕ
mmap_none = 0

abbrev pub mmap_write : ℕ
mmap_write = 2

-- `vm_area`, and `vm_areas`.
pub record VmArea : Type 0 where
  pub start : ℕ
  pub end : ℕ
  pub kernel : Bool

abbrev pub uvm_area : VmArea
uvm_area = record { start = 0x40000000; end = 0x80000000; kernel = false }

abbrev pub vm_areas : List VmArea
vm_areas =
    uvm_area
    ∷ record { start = 0; end = 0x40000000; kernel = true }
    ∷ record { start = 0xfd000000; end = 0; kernel = true }
    ∷ []

-- A test of a bit, `x & flag`.
abbrev pub has : ℕ → ℕ → Bool
has x flag = not (bit_and x flag == 0)

-- `indexof`, `baseof`, and `&pt[index]`.
unfoldable pub indexof : ℕ → PtInfo → ℕ
indexof addr info = bit_and addr info.mask / 2 ^ info.shift

unfoldable pub baseof : ℕ → ℕ
baseof addr = bit_and addr (2 ^ 32 - pgsize)

abbrev pub entry : ℕ → ℕ → ℕ
entry pt index = pt + 4 * index

abbrev pub set_word : (ℕ → ℕ) → ℕ → ℕ → ℕ → ℕ
set_word words a v b = if b == a then v else words b

-- The loop of `pgallocz`, with the entries left.
unfoldable pub zero_entries : ℕ → ℕ → ℕ → (ℕ → ℕ) → ℕ → ℕ
zero_entries zero i base words = words
zero_entries (suc left) i base words =
    zero_entries left (i + 1) base (set_word words (entry base i) 0)

module _ (a : Allocator) where
  -- The memory, and the state of the allocator.
  pub record Tables : Type 0 where
    pub words : ℕ → ℕ
    pub heap : a.H

  abbrev pub store : ℕ → ℕ → Tables → Tables
  store at_ v t = record { words = set_word t.words at_ v; heap = t.heap }

  -- `pgallocz`
  unfoldable pub pgallocz : Tables → Run (ℕ × Tables)
  unfolding zero_entries
  pgallocz t =
      let (base, h) = a.pgalloc pgsize t.heap in
      if base == 0
      then exit 1
      else done (base, record { words = zero_entries (pgsize / 4) 0 base t.words; heap = h })

  -- The body of the loop of `ptwalk`: the table of the next level.
  unfoldable pub next_table : ℕ → ℕ → Tables → Run (ℕ × Tables)
  unfolding pgallocz baseof
  next_table at_ flags t =
      if has (t.words at_) pte_p
      then done (baseof (t.words at_), t)
      else (pgallocz t >>= λ r. done (r.0, store at_ (bit_or (bit_or r.0 pte_p) flags) r.1))

  -- The loop of `ptwalk`, with the levels left; it does not run past the last.
  unfoldable pub walk : List PtInfo → ℕ → ℕ → ℕ → Tables → Run (ℕ × Tables)
  unfolding next_table indexof
  walk [] cur addr flags t = exit 1
  walk (info ∷ []) cur addr flags t = done (entry cur (indexof addr info), t)
  walk (info ∷ next ∷ rest) cur addr flags t =
      next_table (entry cur (indexof addr info)) flags t >>= λ r.
      walk (next ∷ rest) r.0 addr flags r.1

  -- `ptwalk`: the address of the entry.
  unfoldable pub ptwalk : (space addr flags : ℕ) → Tables → Run (ℕ × Tables)
  unfolding walk
  ptwalk space addr flags t = walk pgtables space addr flags t

  -- The stores of `map`: an entry that is cleared, and one that is set.
  unfoldable pub set_entry : (e pa prot : ℕ) → Tables → Run Tables
  set_entry e pa prot t =
      if prot == mmap_none
      then (if has (t.words e) pte_p then done (store e 0 t) else exit 1)
      else if has (t.words e) pte_p
      then exit 1
      else done (
          store e
            (bit_or (bit_or (bit_or pa pte_p) pte_u) (if has prot mmap_write then pte_w else 0)) t)

  abbrev pub in_uvm_area : ℕ → Bool
  in_uvm_area va = leb uvm_area.start va && ltb va uvm_area.end

  -- `map`, which ends with a walk whose result is not used.
  unfoldable pub map : (space va pa prot : ℕ) → Tables → Run Tables
  unfolding ptwalk set_entry baseof
  map space va pa prot t =
      if not (in_uvm_area va)
      then exit 1
      else if not (va == baseof va) || not (pa == baseof pa)
      then exit 1
      else (do
        (e, t1) ← ptwalk space va (bit_or pte_w pte_u) t
        t2 ← set_entry e pa prot t1
        (e', t3) ← ptwalk space va (bit_or pte_w pte_u) t2
        done t3)
