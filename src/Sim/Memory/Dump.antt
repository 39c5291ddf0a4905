-- ===== src/Sim/Memory/Dump.antt =====
-- The dumps of memory.c: the words that `dump_pmem_4kb` and `dump_pmem_to_log` print, with their
-- addresses, when the log is on.
use riscv64_cpu.Base.{
  zero, suc, [], ◌∷◌, refl, List, ℕ, ◌+◌, ◌≡◌, arith, if◌then◌else◌, ◌*◌, ◌≤◌, true, ◌%◌, ◌<◌,
}
use riscv64_cpu.Base.Words.{u32}
use riscv64_cpu.Base.Bytes.{Mem, load_le, load_le-lt, IsBytes}
use riscv64_cpu.Base.Run.{Run, done, fault, ◌>>=◌}
use riscv64_cpu.Sim.Config.{Config, IsValid}
use riscv64_cpu.Sim.Memory.{pmem_read, in_pmem, guest_to_host}
use riscv64_cpu.Sim.Memory.Access.{Within, pmem_read_done, pmem_read_past, word}
use native.Mathlib.Decide.{ℕ_discrete}

-- The words from the index `i` on, as a list.
unfoldable pub words_at : Config → Mem → ℕ → ℕ → List (ℕ × ℕ)
words_at c m zero i = []
words_at c m (suc left) i = (c.mbase + i, load_le 4 m i) ∷ words_at c m left (i + 4)

module _ (c : Config) where
  -- The loop of `dump_pmem_4kb`, with the rounds left.
  unfoldable pub dump_loop : Mem → ℕ → ℕ → Run (List (ℕ × ℕ))
  dump_loop m zero i = done []
  dump_loop m (suc left) i = do
    w ← pmem_read c m (c.mbase + i) 4
    rest ← dump_loop m left (i + 4)
    done ((c.mbase + i, u32 w) ∷ rest)

  unfoldable pub dump_pmem_4kb : Mem → Run (List (ℕ × ℕ))
  unfolding dump_loop
  dump_pmem_4kb m = dump_loop m 1024 0

  -- The loop of `dump_pmem_to_log`, which stops outside the memory.
  unfoldable pub log_loop : Mem → ℕ → ℕ → Run (List (ℕ × ℕ))
  log_loop m zero i = done []
  log_loop m (suc left) i =
      let print = pmem_read c m (c.mbase + i) 4 >>= λ w.
      log_loop m left (i + 4) >>= λ rest. done ((c.mbase + i, u32 w) ∷ rest) in
      if in_pmem c (c.mbase + i) then print else done []

  unfoldable pub dump_pmem_to_log : Mem → Run (List (ℕ × ℕ))
  unfolding log_loop
  dump_pmem_to_log m = log_loop m 1024 0

module _ {c : Config} (valid : IsValid c) (m : Mem) (bytes : IsBytes m) where
  word_read : (i : ℕ) → i + 4 ≤ c.msize → pmem_read c m (c.mbase + i) 4 ≡ done (load_le 4 m i)
  word_read i h =
      let w : Within c (c.mbase + i) 4 = record { from_base = omega arith; to_end = omega arith } in
      let offset : guest_to_host c (c.mbase + i) ≡ i = omega (arith, valid.fits) in
      rw offset at (pmem_read_done valid m word w)

  u32-word : (i : ℕ) → u32 (load_le 4 m i) ≡ load_le 4 m i
  u32-word i = omega (arith, load_le-lt 4 m i bytes)

  dump_loop-words_at :
      (left i : ℕ) → i + 4 * left ≤ c.msize → dump_loop c m left i ≡ done (words_at c m left i)
  unfolding dump_loop words_at
  dump_loop-words_at zero i h = refl
  dump_loop-words_at (suc left) i h =
      rw (word_read i (omega arith), dump_loop-words_at left (i + 4) (omega arith), u32-word i) refl

  log_loop-words_at :
      (left i : ℕ) → i + 4 * left ≤ c.msize → log_loop c m left i ≡ done (words_at c m left i)
  unfolding log_loop words_at
  log_loop-words_at zero i h = refl
  log_loop-words_at (suc left) i h =
      let inside : in_pmem c (c.mbase + i) ≡ true = ground (arith, valid.fits) in
      rw
        (
          inside,
          word_read i (omega arith),
          log_loop-words_at left (i + 4) (omega arith),
          u32-word i,
        )
        refl

  no_word : pmem_read c m (c.mbase + c.msize) 4 ≡ fault
  no_word = pmem_read_past valid m word (omega arith) (omega arith) (omega arith)

  -- A dump that is longer than the memory reads past its end.
  dump_loop-fault :
      (left i : ℕ) → i % 4 ≡ 0 → i ≤ c.msize → c.msize < i + 4 * left → dump_loop c m left i ≡ fault
  unfolding dump_loop
  dump_loop-fault zero i a lo hi = absurd (omega arith)
  dump_loop-fault (suc left) i a lo hi = elim (ℕ_discrete i c.msize) [
    | yes end ↦ rw (end, no_word) refl
    | no before ↦
        rw
          (
            word_read i (omega (arith, valid.size_aligned)),
            dump_loop-fault left (i + 4) (omega arith) (omega (arith, valid.size_aligned))
                (omega arith),
          )
          refl
  ]

  log_loop-fault :
      (left i : ℕ) → i % 4 ≡ 0 → i ≤ c.msize → c.msize < i + 4 * left → log_loop c m left i ≡ fault
  unfolding log_loop
  log_loop-fault zero i a lo hi = absurd (omega arith)
  log_loop-fault (suc left) i a lo hi =
      let inside : in_pmem c (c.mbase + i) ≡ true = ground (arith, valid.fits) in
      elim (ℕ_discrete i c.msize) [
        | yes end ↦ rw inside (rw (end, no_word) refl)
        | no before ↦
            rw
              (
                inside,
                word_read i (omega (arith, valid.size_aligned)),
                log_loop-fault left (i + 4) (omega arith) (omega (arith, valid.size_aligned))
                    (omega arith),
              )
              refl
      ]

  -- Both dumps show the first 1024 words of the memory; of a memory of less than 4 KB they read
  -- past the end, although one of them tests each address.
  pub dump_pmem_lem :
      (4096 ≤ c.msize
        → (dump_pmem_4kb c m ≡ done (words_at c m 1024 0))
          × (dump_pmem_to_log c m ≡ done (words_at c m 1024 0)))
      × (c.msize < 4096 → (dump_pmem_4kb c m ≡ fault) × (dump_pmem_to_log c m ≡ fault))
  unfolding dump_pmem_4kb dump_pmem_to_log
  dump_pmem_lem = (
    λ h. (dump_loop-words_at 1024 0 (omega arith), log_loop-words_at 1024 0 (omega arith)),
    λ h. (
      dump_loop-fault 1024 0 (omega arith) (omega arith) (omega arith),
      log_loop-fault 1024 0 (omega arith) (omega arith) (omega arith),
    ),
  )
