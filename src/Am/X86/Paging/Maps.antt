-- ===== src/Am/X86/Paging/Maps.antt =====
-- map against the translation of the processor.
use riscv64_cpu.Base.{none, some, inl, inr, ℕ, ◌<◌, ◌^◌, ◌≡◌, ◌≢◌, ◌*◌, ◌+◌, ◌⊎◌, ◌/◌}
use riscv64_cpu.Am.X86.Paging.{Allocator, Tables, map, mmap_none, pgsize}
use riscv64_cpu.Am.X86.Paging.Translation.{IsAllocator, IsSpace, translate}
use riscv64_cpu.Am.X86.Paging.Mapping.{
  IsUserPage, map_cleared, map_set, set-translate, set-untranslated,
}
use riscv64_cpu.Base.Run.{done, exit}

-- For a user page that is not mapped, in a well-formed address space, map with an access and a
-- frame either panics, because the allocator has no page left, or ends in a well-formed address
-- space in which every address of the page translates to that of the frame, and addresses of other
-- pages translate as before.
pub map_lem :
    (a : Allocator) (InUse : ℕ → a.H → Type 0)
    → IsAllocator a InUse
    → (space root va q prot : ℕ) (t : Tables a) → IsUserPage va
    → IsSpace a InUse space root t
    → q < 2 ^ 20
    → prot ≢ mmap_none
    → translate t.words root va ≡ none
    → ((map a space va (q * 4096) prot t ≡ exit 1) × ((a.pgalloc pgsize t.heap).0 ≡ 0))
      ⊎ ((t3 : Tables a) × (map a space va (q * 4096) prot t ≡ done t3)
          × IsSpace a InUse space root t3
          × ((off : ℕ) → off < 4096 → translate t3.words root (va + off) ≡ some (q * 4096 + off))
          × ((x : ℕ)
              → x < 2 ^ 32
              → x / 4096 ≢ va / 4096
              → translate t3.words root x ≡ translate t.words root x))
map_lem a InUse law space root va q prot t user h hq np free =
    elim (map_set a InUse law space root va user q prot t h hq np free) [
      | inl e ↦ inl e
      | inr (v, t3, run, odd, f, s) ↦ inr (
        t3,
        run,
        s.is_space,
        λ off ho. set-translate a InUse law space root va user v q off t t3 s odd f ho,
        s.pages,
      )
    ]

-- For a user page that is mapped, in a well-formed address space, map with no access ends in a
-- well-formed address space in which no address of the page translates, and addresses of other
-- pages translate as before.
pub unmap_lem :
    (a : Allocator) (InUse : ℕ → a.H → Type 0)
    → IsAllocator a InUse
    → (space root va p q : ℕ) (t : Tables a) → IsUserPage va
    → IsSpace a InUse space root t
    → q < 2 ^ 20
    → translate t.words root va ≡ some p
    → (t3 : Tables a) × (map a space va (q * 4096) mmap_none t ≡ done t3)
      × IsSpace a InUse space root t3
      × ((off : ℕ) → off < 4096 → translate t3.words root (va + off) ≡ none)
      × ((x : ℕ)
          → x < 2 ^ 32
          → x / 4096 ≢ va / 4096
          → translate t3.words root x ≡ translate t.words root x)
unmap_lem a InUse law space root va p q t user h hq there =
    let (t3, run, s) = map_cleared a InUse law space root va user p q t h hq there in
    (
      t3,
      run,
      s.is_space,
      λ off ho. set-untranslated a InUse law space root va user off t t3 s ho,
      s.pages,
    )
