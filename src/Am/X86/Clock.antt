-- ===== src/Am/X86/Clock.antt =====
-- x86/qemu/ioe.c: the real-time clock and the time-stamp counter. The delay loop of `wait_sec`
-- does nothing.
use riscv64_cpu.Base.{zero, suc, ℕ, ◌+◌, bit_and, if◌then◌else◌, ◌*◌, leb, ◌/◌, ◌==◌, ◌^◌, ◌-◌, ◌%◌}
use riscv64_cpu.Base.Run.{Run, done, out_of_fuel, ◌>>=◌, fault}
use riscv64_cpu.Am.Ports.{Ports}

-- AM_TIMER_RTC_T
pub record Rtc : Type 0 where
  pub second : ℕ
  pub minute : ℕ
  pub hour : ℕ
  pub day : ℕ
  pub month : ℕ
  pub year : ℕ

-- Two decimal digits in a byte.
unfoldable pub from_bcd : ℕ → ℕ
from_bcd ret = bit_and ret 0xf + ret / 2 ^ 4 * 10

-- `boot_date`, `freq_mhz` and `uptsc`
pub record Timer : Type 0 where
  pub boot_date : Rtc
  pub freq_mhz : ℕ
  pub uptsc : ℕ

module _ (p : Ports) where
  -- `read_rtc`
  unfoldable pub read_rtc : ℕ → p.D → ℕ × p.D
  unfolding from_bcd
  read_rtc reg d = let (ret, d1) = p.inb 0x71 (p.outb 0x70 reg d) in (from_bcd ret, d1)

  -- `read_rtc_async`, with the registers in the order of its initialisers.
  unfoldable pub read_rtc_async : p.D → Rtc × p.D
  unfolding read_rtc
  read_rtc_async d =
      let (second, d1) = read_rtc 0 d in
      let (minute, d2) = read_rtc 2 d1 in
      let (hour, d3) = read_rtc 4 d2 in
      let (day, d4) = read_rtc 7 d3 in
      let (month, d5) = read_rtc 8 d4 in
      let (year, d6) = read_rtc 9 d5 in
      (
        record {
          second = second;
          minute = minute;
          hour = hour;
          day = day;
          month = month;
          year = year + 2000;
        },
        d6,
      )

  -- `wait_sec`, which waits for the next second.
  unfoldable pub wait_sec : ℕ → p.D → Run (Rtc × p.D)
  unfolding read_rtc_async
  wait_sec zero d = out_of_fuel
  wait_sec (suc fuel) d =
      let (t0, d1) = read_rtc_async d in
      let (t1, d2) = read_rtc_async d1 in
      let rest = wait_sec fuel d2 in if t0.second == t1.second then rest else done (t1, d2)

  -- `estimate_freq`, with fuel for each wait and for its calls of itself when an hour passes. The
  -- difference of the counters is taken at 64 bits, the result is a `uint32_t`.
  unfoldable pub estimate_freq : ℕ → ℕ → p.D → Run (ℕ × p.D)
  unfolding wait_sec
  estimate_freq zero n d = out_of_fuel
  estimate_freq (suc fuel) n d = do
    (rtc1, d1) ← wait_sec n d
    let (tsc1, d2) = p.rdtsc d1
    (rtc2, d3) ← wait_sec n d2
    let (tsc2, d4) = p.rdtsc d3
    let t1 = rtc1.minute * 60 + rtc1.second
    let t2 = rtc2.minute * 60 + rtc2.second
    let again = estimate_freq fuel n d4
    if leb t2 t1
        then again
        else done ((tsc2 + 2 ^ 64 - tsc1) % 2 ^ 64 / 2 ^ 20 / (t2 - t1) % 2 ^ 32, d4)

  -- `timer_rtc`, which reads again when the second changed meanwhile.
  unfoldable pub timer_rtc : ℕ → p.D → Run (Rtc × p.D)
  unfolding read_rtc_async read_rtc
  timer_rtc zero d = out_of_fuel
  timer_rtc (suc fuel) d =
      let (rtc, d1) = read_rtc_async d in
      let (tmp, d2) = read_rtc 0 d1 in
      let rest = timer_rtc fuel d2 in if tmp == rtc.second then done (rtc, d2) else rest

  -- `timer_init`
  unfoldable pub timer_init : ℕ → p.D → Run (Timer × p.D)
  unfolding estimate_freq timer_rtc
  timer_init n d = do
    (freq, d1) ← estimate_freq n n d
    (date, d2) ← timer_rtc n d1
    let (tsc, d3) = p.rdtsc d2
    done (record { boot_date = date; freq_mhz = freq; uptsc = tsc }, d3)

  -- `timer_uptime`; a division by 0 is undefined.
  unfoldable pub timer_uptime : Timer → p.D → Run (ℕ × p.D)
  timer_uptime t d =
      let (tsc, d1) = p.rdtsc d in
      if t.freq_mhz == 0 then fault else done ((tsc + 2 ^ 64 - t.uptsc) % 2 ^ 64 / t.freq_mhz, d1)
