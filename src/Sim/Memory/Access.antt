-- ===== src/Sim/Memory/Access.antt =====
-- Accesses of the four widths that lie in `pmem`.
use riscv64_cpu.Base.{ℕ, ◌+◌, ◌-◌, ◌%◌, ◌^◌, ◌≤◌, ◌<◌, ◌≡◌, ◌⊎◌, ◌∙◌, ap, sym, arith}
use riscv64_cpu.Base.Bytes.{
  Mem, IsBytes, load_le, store_le, load_le-store_le, store_le_outside, load_le_ext,
  store_le-IsBytes,
}
use riscv64_cpu.Base.Run.{done, fault}
use riscv64_cpu.Sim.Config.{Config, IsValid}
use riscv64_cpu.Sim.Memory.{guest_to_host, pmem_read, pmem_write, host_read, host_write}

-- The widths that the code handles.
pub data IsWidth : ℕ → Type 0 where
  byte : IsWidth 1
  half : IsWidth 2
  word : IsWidth 4
  double : IsWidth 8

pub width_pos : {len : ℕ} → IsWidth len → 0 < len
width_pos byte = omega arith
width_pos half = omega arith
width_pos word = omega arith
width_pos double = omega arith

-- The `len` bytes at `addr` lie in the guest's memory.
pub record Within (c : Config) (addr len : ℕ) : Type 0 where
  pub from_base : c.mbase ≤ addr
  pub to_end : addr + len ≤ c.mbase + c.msize

-- A naturally aligned access that begins in the memory lies in it.
pub aligned_Within :
    {c : Config} {len : ℕ} (addr : ℕ)
    → IsValid c
    → IsWidth len
    → addr % len ≡ 0
    → c.mbase ≤ addr
    → addr < c.mbase + c.msize
    → Within c addr len
aligned_Within addr valid byte e lo hi = omega arith
aligned_Within addr valid half e lo hi = omega (arith, valid.base_aligned, valid.size_aligned)
aligned_Within addr valid word e lo hi = omega (arith, valid.base_aligned, valid.size_aligned)
aligned_Within addr valid double e lo hi = omega (arith, valid.base_aligned, valid.size_aligned)

module _ (c : Config) (m : Mem) where
  pub host_read_done :
      {len : ℕ} (o : ℕ)
      → IsWidth len
      → o + len ≤ c.msize
      → host_read c m o len ≡ done (load_le len m o)
  unfolding host_read
  host_read_done o byte h = ground arith
  host_read_done o half h = ground arith
  host_read_done o word h = ground arith
  host_read_done o double h = ground arith

  pub host_read_fault :
      {len : ℕ} (o : ℕ) → IsWidth len → c.msize < o + len → host_read c m o len ≡ fault
  unfolding host_read
  host_read_fault o byte h = ground arith
  host_read_fault o half h = ground arith
  host_read_fault o word h = ground arith
  host_read_fault o double h = ground arith

  pub host_write_done :
      {len : ℕ} (o v : ℕ)
      → IsWidth len
      → o + len ≤ c.msize
      → host_write c m o len v ≡ done (store_le len m o v)
  unfolding host_write
  host_write_done o v byte h = ground arith
  host_write_done o v half h = ground arith
  host_write_done o v word h = ground arith
  host_write_done o v double h = ground arith

  pub host_write_fault :
      {len : ℕ} (o v : ℕ) → IsWidth len → c.msize < o + len → host_write c m o len v ≡ fault
  unfolding host_write
  host_write_fault o v byte h = ground arith
  host_write_fault o v half h = ground arith
  host_write_fault o v word h = ground arith
  host_write_fault o v double h = ground arith

module _ {c : Config} (valid : IsValid c) where
  offset : {addr len : ℕ} → Within c addr len → guest_to_host c addr ≡ addr - c.mbase
  offset w = omega (arith, valid.fits)

  offset_in : {addr len : ℕ} → Within c addr len → guest_to_host c addr + len ≤ c.msize
  offset_in w = omega (arith, offset w)

  -- Offsets of guest addresses are distinct from one another as the addresses are.
  offset_apart :
      {a b n k : ℕ}
      → Within c a n
      → Within c b k
      → (b + k ≤ a) ⊎ (a + n ≤ b)
      → (guest_to_host c b + k ≤ guest_to_host c a) ⊎ (guest_to_host c a + n ≤ guest_to_host c b)
  offset_apart v w h = omega (arith, offset v, offset w)

  -- A store leaves the words of other guest addresses alone.
  pub load_le-store_le_apart :
      {a b n k : ℕ} (v : ℕ)
      → Within c a n
      → Within c b k
      → (b + k ≤ a) ⊎ (a + n ≤ b)
      → (m : Mem)
      → load_le k (store_le n m (guest_to_host c a) v) (guest_to_host c b)
        ≡ load_le k m (guest_to_host c b)
  load_le-store_le_apart {a} {b} {n} {k} v w bw apart m =
      load_le_ext k _ m (guest_to_host c b) (λ i lo hi.
        store_le_outside n m (guest_to_host c a) v i (omega (arith, offset_apart w bw apart)))

  -- An access within the memory succeeds, and is the access of the bytes at its offset.
  pub pmem_read_done :
      (m : Mem) {addr len : ℕ}
      → IsWidth len
      → Within c addr len
      → pmem_read c m addr len ≡ done (load_le len m (guest_to_host c addr))
  unfolding pmem_read
  pmem_read_done m {addr} wide w = host_read_done c m (guest_to_host c addr) wide (offset_in w)

  pub pmem_write_done :
      (m : Mem) {addr len : ℕ} (v : ℕ)
      → IsWidth len
      → Within c addr len
      → pmem_write c m addr len v ≡ done (store_le len m (guest_to_host c addr) v)
  unfolding pmem_write
  pmem_write_done m {addr} v wide w =
      host_write_done c m (guest_to_host c addr) v wide (offset_in w)

  -- A read that begins in the memory, or just past it, and does not end in it leaves `pmem`.
  pub pmem_read_past :
      (m : Mem) {addr len : ℕ}
      → IsWidth len
      → c.mbase ≤ addr
      → addr ≤ c.mbase + c.msize
      → c.mbase + c.msize < addr + len
      → pmem_read c m addr len ≡ fault
  unfolding pmem_read
  pmem_read_past m {addr} {len} wide lo hi past =
      host_read_fault c m (guest_to_host c addr) wide (omega (arith, valid.fits))

  pub pmem_write_past :
      (m : Mem) {addr len : ℕ} (v : ℕ)
      → IsWidth len
      → c.mbase ≤ addr
      → addr ≤ c.mbase + c.msize
      → c.mbase + c.msize < addr + len
      → pmem_write c m addr len v ≡ fault
  unfolding pmem_write
  pmem_write_past m {addr} v wide lo hi past =
      host_write_fault c m (guest_to_host c addr) v wide (omega (arith, valid.fits))

  -- What a write stores, a read of the same bytes gives back, cut to the width; a read of other
  -- bytes gives what it gave before, and the memory stays made of bytes.
  pmem_read-pmem_write :
      (m : Mem) {addr len : ℕ} (v : ℕ)
      → IsWidth len
      → Within c addr len
      → (m' : Mem) × (pmem_write c m addr len v ≡ done m')
        × (pmem_read c m' addr len ≡ done (v % 256 ^ len))
        × ((b k : ℕ)
            → IsWidth k
            → Within c b k
            → (b + k ≤ addr) ⊎ (addr + len ≤ b)
            → pmem_read c m' b k ≡ pmem_read c m b k)
        × (IsBytes m → IsBytes m')
  pmem_read-pmem_write m {addr} {len} v wide w = (
    store_le len m (guest_to_host c addr) v,
    pmem_write_done m v wide w,
    pmem_read_done _ wide w ∙ ap done (load_le-store_le len m (guest_to_host c addr) v),
    λ b k kw bw apart.
        pmem_read_done _ kw bw
        ∙ ap done (load_le-store_le_apart v w bw apart m)
        ∙ sym (pmem_read_done m kw bw),
    λ h. store_le-IsBytes len m (guest_to_host c addr) v h,
  )
