-- ===== src/Sim/Memory/Paddr.antt =====
-- `paddr_read` and `paddr_write` at every address.
use riscv64_cpu.Base.{ℕ, ◌+◌, ◌≤◌, ◌<◌, ◌≡◌, ◌⊎◌, ◌∙◌, arith}
use riscv64_cpu.Base.Bytes.{Mem, load_le, store_le}
use riscv64_cpu.Base.Run.{done, fault}
use riscv64_cpu.Sim.Config.{Config, IsValid}
use riscv64_cpu.Sim.Memory.{guest_to_host, pmem_read, pmem_write, paddr_read, paddr_write}
use riscv64_cpu.Sim.Memory.Access.{
  IsWidth, Within, pmem_read_done, pmem_write_done, pmem_read_past, pmem_write_past,
}

-- The access begins in the memory or at its end, and runs past the end.
pub record RunsPast (c : Config) (addr len : ℕ) : Type 0 where
  pub from_base : c.mbase ≤ addr
  pub to_end : addr ≤ c.mbase + c.msize
  pub past : c.mbase + c.msize < addr + len

abbrev pub Outside : Config → ℕ → Type 0
Outside c addr = (addr < c.mbase) ⊎ (c.mbase + c.msize < addr)

module _ {c : Config} (valid : IsValid c) (m : Mem) {len : ℕ} (wide : IsWidth len) (addr : ℕ) where
  paddr_read_inside :
      c.mbase ≤ addr → addr ≤ c.mbase + c.msize → paddr_read c m addr len ≡ pmem_read c m addr len
  unfolding paddr_read
  paddr_read_inside lo hi = ground (arith, valid.fits)

  paddr_read-Outside : Outside c addr → paddr_read c m addr len ≡ done 0
  unfolding paddr_read
  paddr_read-Outside out = ground (arith, valid.fits)

  -- A read of a width that the code handles gives the bytes if they all lie in the memory, leaves
  -- `pmem` if it begins in the memory or right at its end and does not end in it, and gives 0 at
  -- any other address.
  pub paddr_read_cases :
      (Within c addr len → paddr_read c m addr len ≡ done (load_le len m (guest_to_host c addr)))
      × (RunsPast c addr len → paddr_read c m addr len ≡ fault)
      × (Outside c addr → paddr_read c m addr len ≡ done 0)
  paddr_read_cases = (
    λ w. paddr_read_inside w.from_base (omega (arith, w.to_end)) ∙ pmem_read_done valid m wide w,
    λ r.
        paddr_read_inside r.from_base r.to_end
        ∙ pmem_read_past valid m wide r.from_base r.to_end r.past,
    paddr_read-Outside,
  )

  paddr_write_inside :
      (v : ℕ)
      → c.mbase ≤ addr
      → addr ≤ c.mbase + c.msize
      → paddr_write c m addr len v ≡ pmem_write c m addr len v
  unfolding paddr_write
  paddr_write_inside v lo hi = ground (arith, valid.fits)

  paddr_write-Outside : (v : ℕ) → Outside c addr → paddr_write c m addr len v ≡ done m
  unfolding paddr_write
  paddr_write-Outside v out = ground (arith, valid.fits)

  -- A write behaves likewise: it stores the bytes, leaves `pmem`, or changes nothing.
  pub paddr_write_cases :
      (v : ℕ)
      → (Within c addr len
          → paddr_write c m addr len v ≡ done (store_le len m (guest_to_host c addr) v))
        × (RunsPast c addr len → paddr_write c m addr len v ≡ fault)
        × (Outside c addr → paddr_write c m addr len v ≡ done m)
  paddr_write_cases v = (
    λ w.
        paddr_write_inside v w.from_base (omega (arith, w.to_end))
        ∙ pmem_write_done valid m v wide w,
    λ r.
        paddr_write_inside v r.from_base r.to_end
        ∙ pmem_write_past valid m v wide r.from_base r.to_end r.past,
    paddr_write-Outside v,
  )
