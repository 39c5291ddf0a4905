-- ===== src/Sim/Program.antt =====
-- simulator/src/main.c: the built-in program, which `load_builded_img` copies to the reset vector.
use riscv64_cpu.Base.{
  [], ◌∷◌, refl, List, if◌then◌else◌, ℕ, leb, ◌%◌, ◌+◌, ◌<◌, ◌≡◌, arith, ◌*◌, ◌^◌, ◌≤◌, length, ◌∙◌,
  ◌-◌, ap, true, ◌/◌,
}
use riscv64_cpu.Base.Bytes.{
  Mem, IsBytes, load_le, store_le, load_le-store_le, store_le-IsBytes, store_le_outside,
  load_le_ext,
}
use riscv64_cpu.Base.Run.{Run, done, fault}
use riscv64_cpu.Sim.Config.{Config, IsValid, reset_vector}
use riscv64_cpu.Sim.Memory.{guest_to_host}
use riscv64_cpu.Sim.Dpi.{dpi_instr_mem_read}
use riscv64_cpu.Sim.Dpi.Fetch.{dpi_instr_mem_read_lem}
use native.Mathlib.Nat.{mod-eq_of_lt}

-- `img`
abbrev pub img : List ℕ
img = 0xfff00293 ∷ 0x30529073 ∷ 0x00100073 ∷ []

-- The copy of an array of `uint32_t` to the offset `a`.
unfoldable pub store_words : List ℕ → ℕ → Mem → Mem
store_words [] a m = m
store_words (w ∷ ws) a m = store_words ws (a + 4) (store_le 4 m a w)

-- `load_builded_img`
unfoldable pub load_builded_img : Config → Mem → Run Mem
unfolding store_words
load_builded_img c m =
    let a = guest_to_host c (reset_vector c) in
    if leb (a + 4 * length img) c.msize then done (store_words img a m) else fault

-- Instructions that the core fetches one after the other.
abbrev pub Fetches : Config → Mem → ℕ → List ℕ → Type 0
Fetches c m addr [] = Unit {0}
Fetches c m addr (w ∷ ws) = (dpi_instr_mem_read c m addr ≡ done w) × Fetches c m (addr + 4) ws

-- Words of 32 bits.
abbrev AllWords : List ℕ → Type 0
AllWords [] = Unit {0}
AllWords (w ∷ ws) = (w < 2 ^ 32) × AllWords ws

store_words-before : (ws : List ℕ) (a b : ℕ) (m : Mem) → b < a → store_words ws a m b ≡ m b
unfolding store_words
store_words-before [] a b m h = refl
store_words-before (w ∷ ws) a b m h =
    store_words-before ws (a + 4) b (store_le 4 m a w) (omega arith)
    ∙ store_le_outside 4 m a w b (omega arith)

store_words-IsBytes : (ws : List ℕ) (a : ℕ) (m : Mem) → IsBytes m → IsBytes (store_words ws a m)
unfolding store_words
store_words-IsBytes [] a m h = h
store_words-IsBytes (w ∷ ws) a m h =
    store_words-IsBytes ws (a + 4) (store_le 4 m a w) (store_le-IsBytes 4 m a w h)

module _ {c : Config} (valid : IsValid c) where
  -- The word that holds an aligned address is fetched from it.
  fetch_aligned :
      (m : Mem) (addr o : ℕ)
      → IsBytes m
      → addr % 4 ≡ 0
      → c.mbase + o ≡ addr
      → o < c.msize
      → dpi_instr_mem_read c m addr ≡ done (load_le 4 m o)
  fetch_aligned m addr o bytes a e lt =
      let off : addr / 4 * 4 - c.mbase ≡ o = omega arith in
      rw off at ((dpi_instr_mem_read_lem valid m bytes addr).0 (omega arith) (omega arith))

  store_words-Fetches :
      (ws : List ℕ) (addr o : ℕ) (m : Mem)
      → AllWords ws
      → IsBytes m
      → addr % 4 ≡ 0
      → c.mbase + o ≡ addr
      → o + 4 * length ws ≤ c.msize
      → Fetches c (store_words ws o m) addr ws
  unfolding store_words
  store_words-Fetches [] addr o m all_ bytes a e hi = tt
  store_words-Fetches (w ∷ ws) addr o m all_ bytes a e hi =
      let m1 = store_le 4 m o w in
      let m1_bytes = store_le-IsBytes 4 m o w bytes in
      let m2 = store_words ws (o + 4) m1 in
      let same : load_le 4 m2 o ≡ load_le 4 m1 o =
        load_le_ext 4 m2 m1 o (λ b p q. store_words-before ws (o + 4) b m1 (omega arith)) in
      let value : load_le 4 m2 o ≡ w = same ∙ load_le-store_le 4 m o w ∙ mod-eq_of_lt all_.0 in
      (
        fetch_aligned m2 addr o (store_words-IsBytes ws (o + 4) m1 m1_bytes) a e (omega arith)
            ∙ ap done value,
        store_words-Fetches ws (addr + 4) (o + 4) m1 all_.1 m1_bytes (omega arith) (omega arith)
            (omega arith),
      )

  -- After `load_builded_img` the core fetches the built-in program from the reset vector on, if
  -- that is the address of a word and there is room for the program.
  pub load_builded_img-Fetches :
      (m : Mem)
      → IsBytes m
      → c.pc_reset_offset % 4 ≡ 0
      → c.pc_reset_offset + 12 ≤ c.msize
      → (m' : Mem) × (load_builded_img c m ≡ done m') × Fetches c m' (reset_vector c) img
  unfolding load_builded_img
  load_builded_img-Fetches m bytes a room =
      let o : guest_to_host c (reset_vector c) ≡ c.pc_reset_offset = omega (arith, valid.fits) in
      let test : leb (c.pc_reset_offset + 12) c.msize ≡ true = ground arith in
      (
        store_words img c.pc_reset_offset m,
        rw (o, test) refl,
        store_words-Fetches img (reset_vector c) c.pc_reset_offset m
            (omega arith, (omega arith, (omega arith, tt))) bytes
            (omega (arith, valid.base_aligned)) refl room,
      )
