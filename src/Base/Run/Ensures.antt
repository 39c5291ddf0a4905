-- ===== src/Base/Run/Ensures.antt =====
-- What holds of a run's value if it ends normally, and how such facts compose.
use mathlib.Core.Path.{◌≡◌, subst}
use mathlib.Core.Bool.{Bool, true, false}
use riscv64_cpu.Base.Tests.{if◌then◌else◌}
use riscv64_cpu.Base.Run.{Run, done, abort, exit, fault, out_of_fuel, ◌>>=◌, done-injective}
use Prim.Native.Nat.{ℕ}

pub data Ensures {ℓ} {A : Type ℓ} (P : A → Type 0) : Run A → Type ℓ where
  value : {a : A} → P a → Ensures P (done a)
  aborts : Ensures P abort
  exits : (code : ℕ) → Ensures P (exit code)
  faults : Ensures P fault
  runs_out : Ensures P out_of_fuel

pub Ensures->>= {ℓ κ} :
    {A : Type ℓ} {B : Type κ} {P : A → Type 0} {Q : B → Type 0} {m : Run A} {f : A → Run B}
    → Ensures P m
    → ((a : A) → P a → Ensures Q (f a))
    → Ensures Q (m >>= f)
Ensures->>= (value {a} h) g = g a h
Ensures->>= aborts g = aborts
Ensures->>= (exits code) g = exits code
Ensures->>= faults g = faults
Ensures->>= runs_out g = runs_out

pub Ensures-if {ℓ} :
    {A : Type ℓ} {P : A → Type 0} (b : Bool) {x y : Run A}
    → Ensures P x
    → Ensures P y
    → Ensures P (if b then x else y)
Ensures-if true hx hy = hx
Ensures-if false hx hy = hy

-- A run of which nothing is said.
pub Ensures-any {ℓ} : {A : Type ℓ} (m : Run A) → Ensures (λ (a : A). Unit {0}) m
Ensures-any (done a) = value tt
Ensures-any abort = aborts
Ensures-any (exit code) = exits code
Ensures-any fault = faults
Ensures-any out_of_fuel = runs_out

-- What is ensured of a run that did end normally.
pub Ensures-done {ℓ} :
    {A : Type ℓ} {P : A → Type 0} {m : Run A} {a : A} → Ensures P m → m ≡ done a → P a
Ensures-done {P = P} (value h) e = subst P (done-injective e) h
Ensures-done aborts e = absurd (cc e)
Ensures-done (exits code) e = absurd (cc e)
Ensures-done faults e = absurd (cc e)
Ensures-done runs_out e = absurd (cc e)
