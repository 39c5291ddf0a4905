-- ===== src/Am/Ioe.antt =====
-- ioe.c, timer.c and input.c: the table of device registers and what reading them gives.
use riscv64_cpu.Base.{true, false, Option, none, some, Bool, ℕ, if◌then◌else◌, ltb, ◌==◌}
use riscv64_cpu.Base.Run.{Run, done, exit, fault}

-- What a handler leaves in the buffer of its caller.
pub data Buffer : Type 0 where
  timer_config : (present has_rtc : Bool) → Buffer
  timer_rtc : (second minute hour day month year : ℕ) → Buffer
  timer_uptime : (us : ℕ) → Buffer
  input_config : (present : Bool) → Buffer
  input_keybrd : (keydown : Bool) (keycode : ℕ) → Buffer
  uart_config : (present : Bool) → Buffer

-- `__am_timer_rtc`, `__am_timer_uptime` and `__am_input_keybrd`
abbrev pub read_rtc : Buffer
read_rtc = timer_rtc 0 0 0 0 0 1900

abbrev pub read_uptime : Buffer
read_uptime = timer_uptime 0

abbrev pub read_keybrd : Buffer
read_keybrd = input_keybrd false 0

pub data Handler : Type 0 where
  am_timer_config am_timer_rtc am_timer_uptime am_input_config am_input_keybrd am_uart_config :
      Handler
  fail : Handler

-- A call of a handler; `fail` panics, which halts with code 1.
unfoldable pub call : Handler → Run Buffer
call am_timer_config = done (timer_config true true)
call am_timer_rtc = done read_rtc
call am_timer_uptime = done read_uptime
call am_input_config = done (input_config true)
call am_input_keybrd = done read_keybrd
call am_uart_config = done (uart_config false)
call fail = exit 1

-- `lut`, by the numbers of amdev.h, before `ioe_init`.
abbrev pub lut : ℕ → Option Handler
lut reg =
    if reg == 4
    then some am_timer_config
    else if reg == 5
    then some am_timer_rtc
    else if reg == 6
    then some am_timer_uptime
    else if reg == 7
    then some am_input_config
    else if reg == 8
    then some am_input_keybrd
    else if reg == 1
    then some am_uart_config
    else none

abbrev or_fail : Option Handler → Option Handler
or_fail none = some fail
or_fail (some h) = some h

-- `ioe_init` fills the empty places.
unfoldable pub ioe_init : (ℕ → Option Handler) → ℕ → Option Handler
ioe_init table reg = if ltb reg 128 then or_fail (table reg) else none

abbrev call_place : Option Handler → Run Buffer
unfolding call
call_place none = fault
call_place (some h) = call h

-- `ioe_read` and `ioe_write`, which are alike. A place that is empty or outside the table faults.
unfoldable pub ioe_read : (ℕ → Option Handler) → ℕ → Run Buffer
unfolding call
ioe_read table reg = if ltb reg 128 then call_place (table reg) else fault
