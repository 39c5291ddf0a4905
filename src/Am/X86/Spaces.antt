-- ===== src/Am/X86/Spaces.antt =====
-- x86/qemu/vme.c: the address space of the kernel, those of processes, and their first contexts.
pub mod Fresh
pub mod Protected
use riscv64_cpu.Base.{
  zero, suc, true, false, [], ◌∷◌, List, ℕ, Bool, bit_or, if◌then◌else◌, ◌+◌, ◌-◌, not, ◌&&◌, ◌*◌,
  ◌==◌, ◌^◌,
}
use riscv64_cpu.Base.Run.{Run, done, exit, out_of_fuel, ◌>>=◌}
use riscv64_cpu.Base.Words.{u32}
use riscv64_cpu.Am.X86.Paging.{
  Allocator, PtInfo, Tables, VmArea, pgtables, page_directory, vm_areas, uvm_area, pgsize, pte_p,
  pte_w, pte_u, has, entry, baseof, indexof, store, pgallocz, ptwalk,
}

abbrev pub cr0_pg : ℕ
cr0_pg = 0x80000000

-- `struct Context`
pub record Context : Type 0 where
  pub cr3 : ℕ
  pub ds : ℕ
  pub eax : ℕ
  pub ebx : ℕ
  pub ecx : ℕ
  pub edx : ℕ
  pub esp0 : ℕ
  pub esi : ℕ
  pub edi : ℕ
  pub ebp : ℕ
  pub eip : ℕ
  pub cs : ℕ
  pub eflags : ℕ
  pub esp : ℕ
  pub ss3 : ℕ

-- The fields of an AddrSpace but `ptr`, which stands in memory.
pub record AddrSpace : Type 0 where
  pub pgsize : ℕ
  pub area : VmArea

abbrev pub fl_if : ℕ
fl_if = 0x200

abbrev pub usel : ℕ → ℕ
usel seg = bit_or (seg * 2 ^ 3) 3

abbrev pub seg_ucode : ℕ
seg_ucode = 3

abbrev pub seg_udata : ℕ
seg_udata = 4

-- `sizeof(Context)`
abbrev pub sizeof_context : ℕ
sizeof_context = 60

module _ (a : Allocator) where
  -- What vme_init leaves: `kpt`, the control registers, and the memory.
  pub record Vm : Type 0 where
    pub kpt : ℕ
    pub cr3 : ℕ
    pub cr0 : ℕ
    pub tables : Tables a

  -- The loop of vme_init over the pages of an area, on fuel; addresses wrap at the end.
  unfoldable pub map_area : ℕ → (space cur end : ℕ) → Tables a → Run (Tables a)
  unfolding ptwalk
  map_area zero space cur end t = out_of_fuel
  map_area (suc fuel) space cur end t =
      let rest = ptwalk a space cur pte_w t >>= λ r.
      map_area fuel space (u32 (cur + pgsize)) end
        (store a r.0 (bit_or (bit_or cur pte_p) pte_w) r.1) in
      if cur == end then done t else rest

  -- The loop of vme_init over the areas.
  unfoldable pub map_areas : ℕ → (space : ℕ) → List VmArea → Tables a → Run (Tables a)
  unfolding map_area
  map_areas n space [] t = done t
  map_areas n space (vma ∷ rest) t =
      (if vma.kernel then map_area n space vma.start vma.end t else done t)
      >>= map_areas n space rest

  -- `vme_init` on the processor `cpu`, with its local `as` at `space`.
  unfoldable pub vme_init : ℕ → (cpu cr0 space : ℕ) → Tables a → Run Vm
  unfolding map_areas baseof
  vme_init n cpu cr0 space t =
      if not (cpu == 0)
      then exit 1
      else (map_areas n space vm_areas (store a space 0 t) >>= λ t1. done (record {
        kpt = baseof (t1.words space);
        cr3 = baseof (t1.words space);
        cr0 = bit_or cr0 cr0_pg;
        tables = t1;
      }))

  -- The loop of protect over an area, on fuel.
  unfoldable pub copy_area : ℕ → (upt kpt cur end : ℕ) → Tables a → Run (Tables a)
  unfolding indexof
  copy_area zero upt kpt cur end t = out_of_fuel
  copy_area (suc fuel) upt kpt cur end t =
      let index = indexof cur page_directory in
      let rest =
        copy_area fuel upt kpt (u32 (cur + 2 ^ page_directory.shift)) end
          (store a (entry upt index) (t.words (entry kpt index)) t) in
      if cur == end then done t else rest

  unfoldable pub copy_areas : ℕ → (upt kpt : ℕ) → List VmArea → Tables a → Run (Tables a)
  unfolding copy_area
  copy_areas n upt kpt [] t = done t
  copy_areas n upt kpt (vma ∷ rest) t =
      (if vma.kernel then copy_area n upt kpt vma.start vma.end t else done t)
      >>= copy_areas n upt kpt rest

  -- `protect`
  unfoldable pub protect : ℕ → (kpt space : ℕ) → Tables a → Run (AddrSpace × Tables a)
  unfolding pgallocz copy_areas
  protect n kpt space t = do
    (upt, t1) ← pgallocz a t
    t2 ← copy_areas n upt kpt vm_areas t1
    done (
      record { pgsize = pgsize; area = uvm_area },
      store a space (bit_or (bit_or upt pte_p) pte_u) t2,
    )

  -- The loop of teardown over the entries of a table, with what it does to the next level.
  unfoldable pub teardown_entries :
      (ℕ → Tables a → Tables a) → (left index pt : ℕ) → Tables a → Tables a
  unfolding baseof
  teardown_entries next zero index pt t = t
  teardown_entries next (suc left) index pt t =
      let w = t.words (entry pt index) in
      teardown_entries next left (index + 1) pt
        (if has w pte_p && has w pte_u then next (baseof w) t else t)

  -- `teardown`, with the levels from its `level` on, and whether that is 1 at least.
  unfoldable pub teardown : List PtInfo → Bool → ℕ → Tables a → Tables a
  unfolding teardown_entries
  teardown [] frees pt t = t
  teardown (info ∷ rest) frees pt t =
      let t1 = teardown_entries (teardown rest true) (2 ^ info.bits) 0 pt t in
      if frees then record { words = t1.words; heap = a.pgfree pt t1.heap } else t1

  -- `unprotect`
  unfoldable pub unprotect : (space : ℕ) → Tables a → Tables a
  unfolding teardown
  unprotect space t = teardown pgtables false space t

  -- `ucontext`: the context, and its address; `end` is the end of the kernel stack.
  unfoldable pub ucontext : (space end entry_point : ℕ) → Tables a → ℕ × Context
  ucontext space end entry_point t = (
    end - sizeof_context,
    record {
      cr3 = t.words space;
      ds = usel seg_udata;
      eax = 0;
      ebx = 0;
      ecx = 0;
      edx = 0;
      esp0 = end;
      esi = 0;
      edi = 0;
      ebp = 0;
      eip = entry_point;
      cs = usel seg_ucode;
      eflags = fl_if;
      esp = uvm_area.end;
      ss3 = usel seg_udata;
    },
  )
