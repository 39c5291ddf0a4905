-- ===== src/Sim/Dpi/Data.antt =====
-- The core's loads and stores.
use riscv64_cpu.Base.{ℕ, ◌+◌, ◌%◌, ◌^◌, ◌≤◌, ◌<◌, ◌≡◌, ◌≢◌, ◌⊎◌, ◌∙◌, ap, sym, arith, ◌∷◌, inl, inr}
use native.Mathlib.Decide.{dec_lt, ℕ_discrete}
use riscv64_cpu.Base.Bytes.{Mem, load_le, store_le, load_le-store_le}
use riscv64_cpu.Base.Run.{done, fault, ◌>>=◌}
use riscv64_cpu.Sim.Config.{Config, IsValid}
use riscv64_cpu.Sim.State.{Host}
use riscv64_cpu.Sim.Memory.{pmem_read, pmem_write, guest_to_host}
use riscv64_cpu.Sim.Memory.Access.{
  IsWidth, width_pos, Within, aligned_Within, load_le-store_le_apart, pmem_read_done,
  pmem_write_done, pmem_read_past, pmem_write_past,
}
use riscv64_cpu.Base.Bits.{bit_and_mask}
use riscv64_cpu.Sim.Dpi.{dpi_mem_read, dpi_mem_write, uart_base, uart_status}

-- The access begins in the memory and runs past its end.
pub record Straddles (c : Config) (addr len : ℕ) : Type 0 where
  pub from_base : c.mbase ≤ addr
  pub to_end : addr < c.mbase + c.msize
  pub past : c.mbase + c.msize < addr + len

abbrev pub NotInDram : Config → ℕ → Type 0
NotInDram c addr = (addr < c.mbase) ⊎ (c.mbase + c.msize ≤ addr)

module _ {c : Config} (valid : IsValid c) {len : ℕ} (wide : IsWidth len) (addr : ℕ) where
  dpi_mem_read_inside :
      (m : Mem)
      → c.mbase ≤ addr
      → addr < c.mbase + c.msize
      → dpi_mem_read c m addr len ≡ pmem_read c m addr len
  unfolding dpi_mem_read
  dpi_mem_read_inside m lo hi = ground (arith, valid.fits, valid.dram)

  dpi_mem_read_device :
      (m : Mem) → NotInDram c addr → addr ≢ uart_status → dpi_mem_read c m addr len ≡ done 0
  unfolding dpi_mem_read
  dpi_mem_read_device m out ne = ground (arith, valid.fits)

  dpi_mem_read_status : (m : Mem) → addr ≡ uart_status → dpi_mem_read c m addr len ≡ done 0x20
  unfolding dpi_mem_read
  dpi_mem_read_status m e = ground arith

  dpi_mem_write_inside :
      (h : Host) (v : ℕ)
      → c.mbase ≤ addr
      → addr < c.mbase + c.msize
      → dpi_mem_write c h addr v len
        ≡ (pmem_write c h.pmem addr len v >>= λ m. done (record h { pmem = m }))
  unfolding dpi_mem_write
  dpi_mem_write_inside h v lo hi = ground (arith, valid.fits, valid.dram)

  dpi_mem_write_device :
      (h : Host) (v : ℕ)
      → NotInDram c addr
      → addr ≢ uart_base
      → dpi_mem_write c h addr v len ≡ done h
  unfolding dpi_mem_write
  dpi_mem_write_device h v out ne = ground (arith, valid.fits)

  Within-pos : Within c addr len → addr < c.mbase + c.msize
  Within-pos w = omega (arith, width_pos wide, w.to_end)

  -- A load gives the memory's bytes, the ready bit of the UART's status register, or 0 at any
  -- other device address; the one access that leaves `pmem` begins in the memory and ends past it.
  pub dpi_mem_read_cases :
      (m : Mem)
      → (Within c addr len
          → dpi_mem_read c m addr len ≡ done (load_le len m (guest_to_host c addr)))
        × (Straddles c addr len → dpi_mem_read c m addr len ≡ fault)
        × (NotInDram c addr → addr ≢ uart_status → dpi_mem_read c m addr len ≡ done 0)
        × (addr ≡ uart_status → dpi_mem_read c m addr len ≡ done 0x20)
  dpi_mem_read_cases m = (
    λ w. dpi_mem_read_inside m w.from_base (Within-pos w) ∙ pmem_read_done valid m wide w,
    λ s.
        dpi_mem_read_inside m s.from_base s.to_end
        ∙ pmem_read_past valid m wide s.from_base (omega (arith, s.to_end)) s.past,
    dpi_mem_read_device m,
    dpi_mem_read_status m,
  )

  dpi_mem_write_uart :
      (h : Host) (v : ℕ)
      → addr ≡ uart_base
      → dpi_mem_write c h addr v len ≡ done (record h { console = v % 256 ∷ h.console })
  unfolding dpi_mem_write
  dpi_mem_write_uart h v e = ground (arith, bit_and_mask 8 v)

  dpi_mem_write-Within :
      (h : Host) (v : ℕ)
      → Within c addr len
      → dpi_mem_write c h addr v len
        ≡ done (record h { pmem = store_le len h.pmem (guest_to_host c addr) v })
  dpi_mem_write-Within h v w =
      dpi_mem_write_inside h v w.from_base (Within-pos w)
      ∙ ap (λ r. r >>= λ m. done (record h { pmem = m })) (pmem_write_done valid h.pmem v wide w)

  -- Every address is a device's or the memory's.
  place : NotInDram c addr ⊎ ((c.mbase ≤ addr) × (addr < c.mbase + c.msize))
  place = elim (dec_lt addr c.mbase) [
    | yes below ↦ inl (inl below)
    | no above ↦ elim (dec_lt addr (c.mbase + c.msize)) [
      | yes inside ↦ inr (omega arith, inside)
      | no past ↦ inl (inr (omega arith))
    ]
  ]

  -- A naturally aligned load returns at every address, and a naturally aligned store too.
  pub dpi_mem_aligned :
      (h : Host) (v : ℕ)
      → addr % len ≡ 0
      → ((r : ℕ) × (dpi_mem_read c h.pmem addr len ≡ done r))
        × ((h' : Host) × (dpi_mem_write c h addr v len ≡ done h'))
  dpi_mem_aligned h v e = (loads, stores)
    where
      within : (c.mbase ≤ addr) × (addr < c.mbase + c.msize) → Within c addr len
      within i = aligned_Within addr valid wide e i.0 i.1

      loads : (r : ℕ) × (dpi_mem_read c h.pmem addr len ≡ done r)
      loads = elim (ℕ_discrete addr uart_status) [
        | yes status ↦ (0x20, dpi_mem_read_status h.pmem status)
        | no other ↦ elim place [
          | inl out ↦ (0, dpi_mem_read_device h.pmem out other)
          | inr i ↦ (
            load_le len h.pmem (guest_to_host c addr),
            dpi_mem_read_inside h.pmem i.0 i.1 ∙ pmem_read_done valid h.pmem wide (within i),
          )
        ]
      ]

      stores : (h' : Host) × (dpi_mem_write c h addr v len ≡ done h')
      stores = elim (ℕ_discrete addr uart_base) [
        | yes uart ↦ (record h { console = v % 256 ∷ h.console }, dpi_mem_write_uart h v uart)
        | no other ↦ elim place [
          | inl out ↦ (h, dpi_mem_write_device h v out other)
          | inr i ↦ (
            record h { pmem = store_le len h.pmem (guest_to_host c addr) v },
            dpi_mem_write-Within h v (within i),
          )
        ]
      ]

  -- A store puts a byte on the console, stores into the memory, leaves `pmem`, or is dropped.
  pub dpi_mem_write_cases :
      (h : Host) (v : ℕ)
      → (addr ≡ uart_base
          → dpi_mem_write c h addr v len ≡ done (record h { console = v % 256 ∷ h.console }))
        × (Within c addr len
            → dpi_mem_write c h addr v len
              ≡ done (record h { pmem = store_le len h.pmem (guest_to_host c addr) v }))
        × (Straddles c addr len → dpi_mem_write c h addr v len ≡ fault)
        × (NotInDram c addr → addr ≢ uart_base → dpi_mem_write c h addr v len ≡ done h)
  dpi_mem_write_cases h v = (
    dpi_mem_write_uart h v,
    dpi_mem_write-Within h v,
    λ s.
        dpi_mem_write_inside h v s.from_base s.to_end
        ∙ ap (λ r. r >>= λ m. done (record h { pmem = m }))
            (pmem_write_past valid h.pmem v wide s.from_base (omega (arith, s.to_end)) s.past),
    dpi_mem_write_device h v,
  )

  load_Within :
      (m : Mem)
      → Within c addr len
      → dpi_mem_read c m addr len ≡ done (load_le len m (guest_to_host c addr))
  load_Within m w = (dpi_mem_read_cases m).0 w

-- What the core stores into the memory it loads back, cut to the width, and any load of other bytes
-- gives what it gave before.
pub dpi_mem_read-dpi_mem_write :
    {c : Config} (valid : IsValid c) {addr len : ℕ} (wide : IsWidth len) (h : Host) (v : ℕ)
    → Within c addr len
    → (h' : Host) × (dpi_mem_write c h addr v len ≡ done h')
      × (dpi_mem_read c h'.pmem addr len ≡ done (v % 256 ^ len))
      × ((b k : ℕ)
          → IsWidth k
          → Within c b k
          → (b + k ≤ addr) ⊎ (addr + len ≤ b)
          → dpi_mem_read c h'.pmem b k ≡ dpi_mem_read c h.pmem b k)
dpi_mem_read-dpi_mem_write {c} valid {addr} {len} wide h v w =
    let m = store_le len h.pmem (guest_to_host c addr) v in
    (
      record h { pmem = m },
      dpi_mem_write-Within valid wide addr h v w,
      load_Within valid wide addr m w
          ∙ ap done (load_le-store_le len h.pmem (guest_to_host c addr) v),
      λ b k kw bw apart.
          load_Within valid kw b m bw
          ∙ ap done (load_le-store_le_apart valid v w bw apart h.pmem)
          ∙ sym (load_Within valid kw b h.pmem bw),
    )
