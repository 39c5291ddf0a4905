-- ===== src/Am/X86/Keyboard.antt =====
-- x86/qemu/ioe.c: the keyboard. A key is its number in AM_KEYS of amdev.h, from 1; 0 is AM_KEY_NONE.
use riscv64_cpu.Base.{[], ◌∷◌, false, List, Bool, if◌then◌else◌, ℕ, bit_and, ◌==◌, ltb}
use riscv64_cpu.Am.Ports.{Ports}

-- The initialisers of `keylut` in turn.
abbrev pub key_initialisers : List (ℕ × ℕ)
key_initialisers =
    (0x01, 1)
    ∷ (0x02, 15)
    ∷ (0x03, 16)
    ∷ (0x04, 17)
    ∷ (0x05, 18)
    ∷ (0x06, 19)
    ∷ (0x07, 20)
    ∷ (0x08, 21)
    ∷ (0x09, 22)
    ∷ (0x0a, 23)
    ∷ (0x0b, 24)
    ∷ (0x0c, 25)
    ∷ (0x0d, 26)
    ∷ (0x0e, 27)
    ∷ (0x0f, 28)
    ∷ (0x10, 29)
    ∷ (0x11, 30)
    ∷ (0x12, 31)
    ∷ (0x13, 32)
    ∷ (0x14, 33)
    ∷ (0x15, 34)
    ∷ (0x16, 35)
    ∷ (0x17, 36)
    ∷ (0x18, 37)
    ∷ (0x19, 38)
    ∷ (0x1a, 39)
    ∷ (0x1b, 40)
    ∷ (0x1c, 54)
    ∷ (0x1d, 67)
    ∷ (0x1e, 43)
    ∷ (0x1f, 44)
    ∷ (0x20, 45)
    ∷ (0x21, 46)
    ∷ (0x22, 47)
    ∷ (0x23, 48)
    ∷ (0x24, 49)
    ∷ (0x25, 50)
    ∷ (0x26, 51)
    ∷ (0x27, 52)
    ∷ (0x28, 53)
    ∷ (0x29, 14)
    ∷ (0x2a, 55)
    ∷ (0x2b, 41)
    ∷ (0x2c, 56)
    ∷ (0x2d, 57)
    ∷ (0x2e, 58)
    ∷ (0x2f, 59)
    ∷ (0x30, 60)
    ∷ (0x31, 61)
    ∷ (0x32, 62)
    ∷ (0x33, 63)
    ∷ (0x34, 64)
    ∷ (0x35, 65)
    ∷ (0x36, 66)
    ∷ (0x38, 69)
    ∷ (0x38, 71)
    ∷ (0x39, 70)
    ∷ (0x3a, 42)
    ∷ (0x3b, 2)
    ∷ (0x3c, 3)
    ∷ (0x3d, 4)
    ∷ (0x3e, 5)
    ∷ (0x3f, 6)
    ∷ (0x40, 7)
    ∷ (0x41, 8)
    ∷ (0x42, 9)
    ∷ (0x43, 10)
    ∷ (0x44, 11)
    ∷ (0x48, 77)
    ∷ (0x4b, 79)
    ∷ (0x4d, 80)
    ∷ (0x50, 78)
    ∷ (0x57, 12)
    ∷ (0x58, 13)
    ∷ (0x5b, 68)
    ∷ []

-- Of two initialisers of a place the later one counts; a place with none is 0.
unfoldable pub initialised : List (ℕ × ℕ) → ℕ → ℕ → ℕ
initialised [] key code = key
initialised (e ∷ es) key code = initialised es (if e.0 == code then e.1 else key) code

unfoldable pub keylut : ℕ → ℕ
unfolding initialised
keylut code = initialised key_initialisers 0 code

pub record Keyboard : Type 0 where
  pub keydown : Bool
  pub keycode : ℕ

module _ (p : Ports) where
  -- `input_keybrd`
  unfoldable pub input_keybrd : p.D → Keyboard × p.D
  unfolding keylut
  input_keybrd d =
      let (status, d1) = p.inb 0x64 d in
      let (code, d2) = p.inb 0x60 d1 in
      if bit_and status 1 == 0 then (record { keydown = false; keycode = 0 }, d1) else (
        record { keydown = ltb (bit_and code 0xff) 128; keycode = keylut (bit_and code 0x7f) },
        d2,
      )
