-- ===== src/Base/Bytes.antt =====
-- Byte-addressed memory, and words kept in it with the low byte first.
use Prim.Native.Nat.{ℕ, zero, suc, ◌+◌, ◌*◌, ◌/◌, ◌%◌, ◌^◌, ◌≤◌, ◌<◌}
use mathlib.Core.Path.{◌≡◌, refl, ap, ◌∙◌}
use mathlib.Core.Logic.{◌≢◌, ◌⊎◌}
use native.Mathlib.Nat.{pow-suc, pow-succ', one-le-pow}
use native.Mathlib.Omega.{arith}
use riscv64_cpu.Base.Tests.{◌==◌, if◌then◌else◌}
use riscv64_cpu.Base.Bits.{mod-mul_split}

abbrev pub Mem : Type 0
Mem = ℕ → ℕ

-- Each cell holds a byte.
abbrev pub IsBytes : Mem → Type 0
IsBytes m = (a : ℕ) → m a < 256

unfoldable pub write : Mem → ℕ → ℕ → Mem
write m a v b = if a == b then v else m b

-- the word of `n` bytes at `a`
unfoldable pub load_le : ℕ → Mem → ℕ → ℕ
load_le zero m a = 0
load_le (suc n) m a = m a + 256 * load_le n m (a + 1)

-- the low `n` bytes of `d`, written from `a` on
unfoldable pub store_le : ℕ → Mem → ℕ → ℕ → Mem
store_le zero m a d = m
store_le (suc n) m a d = store_le n (write m a (d % 256)) (a + 1) (d / 256)

pub write_self : (m : Mem) (a v : ℕ) → write m a v a ≡ v
unfolding write
write_self m a v = ground arith

pub write_ne : (m : Mem) (a v b : ℕ) → a ≢ b → write m a v b ≡ m b
unfolding write
write_ne m a v b h = ground arith

pub write-IsBytes : {m : Mem} (a v : ℕ) → IsBytes m → v < 256 → IsBytes (write m a v)
unfolding write
write-IsBytes a v h hv b = ground (arith, h b)

-- A store touches only its own bytes.
pub store_le_outside :
    (n : ℕ) (m : Mem) (a d b : ℕ) → (b < a) ⊎ (a + n ≤ b) → store_le n m a d b ≡ m b
unfolding store_le
store_le_outside zero m a d b h = refl
store_le_outside (suc n) m a d b h =
    store_le_outside n (write m a (d % 256)) (a + 1) (d / 256) b (omega arith)
    ∙ write_ne m a (d % 256) b (omega arith)

pub store_le-IsBytes : (n : ℕ) (m : Mem) (a d : ℕ) → IsBytes m → IsBytes (store_le n m a d)
unfolding store_le
store_le-IsBytes zero m a d h = h
store_le-IsBytes (suc n) m a d h =
    store_le-IsBytes n (write m a (d % 256)) (a + 1) (d / 256)
      (write-IsBytes a (d % 256) h (omega arith))

-- Loading depends only on the bytes loaded.
pub load_le_ext :
    (n : ℕ) (m k : Mem) (a : ℕ)
    → ((b : ℕ) → a ≤ b → b < a + n → m b ≡ k b)
    → load_le n m a ≡ load_le n k a
unfolding load_le
load_le_ext zero m k a h = refl
load_le_ext (suc n) m k a h = omega (
  arith,
  h a (omega arith) (omega arith),
  load_le_ext n m k (a + 1) (λ b p q. h b (omega arith) (omega arith)),
)

pub load_le-lt : (n : ℕ) (m : Mem) (a : ℕ) → IsBytes m → load_le n m a < 256 ^ n
unfolding load_le
load_le-lt zero m a h = omega arith
load_le-lt (suc n) m a h = omega (arith, h a, load_le-lt n m (a + 1) h, pow-suc 256 n)

-- What is stored is read back, cut to the bytes stored.
pub load_le-store_le : (n : ℕ) (m : Mem) (a d : ℕ) → load_le n (store_le n m a d) a ≡ d % 256 ^ n
unfolding load_le store_le
load_le-store_le zero m a d = omega arith
load_le-store_le (suc n) m a d = omega (
  arith,
  store_le_outside n (write m a (d % 256)) (a + 1) (d / 256) a (omega arith),
  write_self m a (d % 256),
  load_le-store_le n (write m a (d % 256)) (a + 1) (d / 256),
  mod-mul_split 256 (256 ^ n) d (omega arith) (one-le-pow n 256 (omega arith)),
  ap (λ (t : ℕ). d % t) (pow-succ' 256 n),
)
