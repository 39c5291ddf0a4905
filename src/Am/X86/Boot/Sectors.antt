-- ===== src/Am/X86/Boot/Sectors.antt =====
-- What the boot loader reads from the disk.
use riscv64_cpu.Base.{
  true, false, zero, suc, refl, ℕ, ◌+◌, ◌<◌, ◌^◌, ◌≡◌, arith, ◌*◌, ◌⊎◌, ◌∙◌, ◌≤◌, ap, ◌-◌, sym, ltb,
  ◌%◌,
}
use riscv64_cpu.Base.Run.{done, ◌>>=◌}
use riscv64_cpu.Base.Bytes.{Mem, store_le, store_le_outside}
use riscv64_cpu.Am.Ports.{Ports}
use riscv64_cpu.Am.X86.Boot.{read_disk, read_words, copy_sectors, wait_disk, read_command}
use riscv64_cpu.Am.X86.Boot.Drive.{Drive, wait_idle, wait_busy, read_command-Busy, store_le-load_le}
use native.Mathlib.Decide.{dec_lt}
use mathlib.Core.Path.{subst}

module _ (p : Ports) (v : Drive p) where
  -- Bytes of the disk from `x` on were copied to `a`, and nothing else was written.
  pub record Loaded (a len x : ℕ) (m m' : Mem) : Type 0 where
    pub inside : (i : ℕ) → i < len → m' (a + i) ≡ v.content (x + i)
    pub outside : (b : ℕ) → (b < a) ⊎ (a + len ≤ b) → m' b ≡ m b

  pub Loaded-append :
      (a k l x : ℕ) (m m1 m2 : Mem)
      → Loaded a k x m m1
      → Loaded (a + k) l (x + k) m1 m2
      → Loaded a (k + l) x m m2
  Loaded-append a k l x m m1 m2 f s = record {
    inside = λ i h. elim (dec_lt i k) [
      | yes low ↦ s.outside (a + i) (omega arith) ∙ f.inside i low
      | no high ↦
          let j = i - k in
          let e : a + k + j ≡ a + i = omega (arith, high) in
          let e' : x + k + j ≡ x + i = omega (arith, high) in
          rw (sym e, sym e') (s.inside j (omega (arith, high)))
    ];
    outside = λ b o. s.outside b (omega (arith, o)) ∙ f.outside b (omega (arith, o));
  }

  read_words-Loaded :
      (left k s buf : ℕ) (m : Mem) (d : p.D)
      → left + k ≡ 128
      → v.Reading s k d
      → Loaded buf (4 * left) (s * 512 + 4 * k) m (read_words p left buf (m, d)).0
        × v.Reading s 128 (read_words p left buf (m, d)).1
  unfolding read_words
  read_words-Loaded zero k s buf m d e h = (
    record { inside = λ i l. absurd (omega (arith, l)); outside = λ b o. refl },
    (let all : k ≡ 128 = omega (arith, e) in subst (λ j. v.Reading s j d) all h),
  )
  read_words-Loaded (suc left) k s buf m d e h =
      let (w, next) = v.words s k d (omega arith) h in
      let m1 = store_le 4 m buf (p.inl 0x1f0 d).0 in
      let (rest, end) =
        read_words-Loaded left (k + 1) s (buf + 4) m1 (p.inl 0x1f0 d).1 (omega arith) next in
      let here : Loaded buf 4 (s * 512 + 4 * k) m m1 = record {
        inside = λ i l.
            ap (λ u. store_le 4 m buf u (buf + i)) w
            ∙ store_le-load_le 4 m v.content buf (s * 512 + 4 * k) i v.bytes l;
        outside = λ b o. store_le_outside 4 m buf _ b o;
      } in
      let x : s * 512 + 4 * (k + 1) ≡ s * 512 + 4 * k + 4 = omega arith in
      let len : 4 + 4 * left ≡ 4 * suc left = omega arith in
      (
        subst
            (λ l.
              Loaded buf l (s * 512 + 4 * k) m
                (read_words p left (buf + 4) (m1, (p.inl 0x1f0 d).1)).0)
            len
            (Loaded-append buf 4 (4 * left) (s * 512 + 4 * k) m m1 _ here (
              subst
                (λ y.
                  Loaded (buf + 4) (4 * left) y m1
                    (read_words p left (buf + 4) (m1, (p.inl 0x1f0 d).1)).0)
                x rest)),
        end,
      )

  pub read_disk-Loaded :
      (n buf sect : ℕ) (m : Mem) (d : p.D)
      → v.latency < n
      → sect < 2 ^ 28
      → v.Idle d
      → (m' : Mem) × (d' : p.D) × (read_disk p n buf sect (m, d) ≡ done (m', d'))
        × Loaded buf 512 (sect * 512) m m'
        × v.Idle d'
  unfolding read_disk
  read_disk-Loaded (suc n) buf sect m d l hs h =
      let (d1, run1, h1) = wait_idle p v n d h in
      let b = read_command-Busy p v sect d1 hs h1 in
      let (d2, run2, h2) = wait_busy p v v.latency sect (suc n) (read_command p sect d1) l b in
      let (loaded, end) = read_words-Loaded 128 0 sect buf m d2 refl h2 in
      let x : sect * 512 + 4 * 0 ≡ sect * 512 = omega arith in
      (
        (read_words p 128 buf (m, d2)).0,
        (read_words p 128 buf (m, d2)).1,
        ap
              (λ r. r >>= λ d3. wait_disk p (suc n) (read_command p sect d3) >>= λ d4.
                done (read_words p 128 buf (m, d4)))
              run1
            ∙ ap (λ r. r >>= λ d4. done (read_words p 128 buf (m, d4))) run2,
        subst (λ y. Loaded buf 512 y m (read_words p 128 buf (m, d2)).0) x loaded,
        v.finished sect _ end,
      )
  read_disk-Loaded zero buf sect m d l hs h = absurd (omega (arith, l))

  -- Whole sectors, up to the one that holds the end.
  pub copy_sectors-Loaded :
      (r fuel n cur ed sect : ℕ) (m : Mem) (d : p.D)
      → r < fuel
      → v.latency < n
      → cur + 512 * r < 2 ^ 32
      → ed ≤ cur + 512 * r
      → (r ≡ 0) ⊎ (cur + 512 * r < ed + 512)
      → sect + r ≤ 2 ^ 28
      → v.Idle d
      → (m' : Mem) × (d' : p.D) × (copy_sectors p fuel n cur ed sect (m, d) ≡ done (m', d'))
        × Loaded cur (512 * r) (sect * 512) m m'
        × v.Idle d'
  unfolding copy_sectors
  copy_sectors-Loaded r zero n cur ed sect m d l q wrap all short hs h = absurd (omega (arith, l))
  copy_sectors-Loaded zero (suc fuel) n cur ed sect m d l q wrap all short hs h =
      let test : ltb cur ed ≡ false = ground (arith, all) in
      (
        m,
        d,
        rw test refl,
        record { inside = λ i z. absurd (omega (arith, z)); outside = λ b o. refl },
        h,
      )
  copy_sectors-Loaded (suc r) (suc fuel) n cur ed sect m d l q wrap all short hs h =
      let test : ltb cur ed ≡ true = ground (arith, short) in
      let (m1, d1, run, first, h1) = read_disk-Loaded n cur sect m d q (omega (arith, hs)) h in
      let next : (cur + 512) % 2 ^ 32 ≡ cur + 512 = omega (arith, wrap) in
      let next' : (sect + 1) % 2 ^ 32 ≡ sect + 1 = omega (arith, hs) in
      let (m2, d2, run', rest, h2) =
        copy_sectors-Loaded r fuel n (cur + 512) ed (sect + 1) m1 d1 (omega (arith, l)) q
          (omega (arith, wrap)) (omega (arith, all)) (omega (arith, short)) (omega (arith, hs))
          h1 in
      let x : (sect + 1) * 512 ≡ sect * 512 + 512 = omega arith in
      let len : 512 + 512 * r ≡ 512 * suc r = omega arith in
      (
        m2,
        d2,
        rw test (
            ap (λ z. z >>= copy_sectors p fuel n ((cur + 512) % 2 ^ 32) ed ((sect + 1) % 2 ^ 32))
              run
            ∙ ap (λ c. copy_sectors p fuel n c ed ((sect + 1) % 2 ^ 32) (m1, d1)) next
            ∙ ap (λ c. copy_sectors p fuel n (cur + 512) ed c (m1, d1)) next'
            ∙ run'),
        subst (λ k. Loaded cur k (sect * 512) m m2) len
            (Loaded-append cur 512 (512 * r) (sect * 512) m m1 m2 first
              (subst (λ y. Loaded (cur + 512) (512 * r) y m1 m2) x rest)),
        h2,
      )
