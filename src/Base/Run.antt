-- ===== src/Base/Run.antt =====
-- How a piece of C ends: normally, by a failed `assert`, by `exit`, in undefined behaviour, or, for
-- a loop that runs on fuel, not before the fuel is used up.
pub mod Ensures
use Prim.Native.Nat.{ℕ}
use mathlib.Core.Path.{◌≡◌, refl, ap, ◌∙◌}

pub data Run {ℓ} (A : Type ℓ) : Type ℓ where
  done : A → Run A
  abort : Run A
  exit : ℕ → Run A
  fault : Run A
  out_of_fuel : Run A

infixl 5 ◌>>=◌ ◌>>◌
abbrev pub ◌>>=◌ {ℓ κ} : {A : Type ℓ} {B : Type κ} → Run A → (A → Run B) → Run B
done a >>= f = f a
abort >>= f = abort
exit code >>= f = exit code
fault >>= f = fault
out_of_fuel >>= f = out_of_fuel

abbrev pub ◌>>◌ {ℓ κ} : {A : Type ℓ} {B : Type κ} → Run A → Run B → Run B
m >> k = m >>= λ _. k

-- A bind that ends normally is made of parts that do.
pub >>=-eq-done {ℓ κ} :
    {A : Type ℓ} {B : Type κ} (m : Run A) (f : A → Run B) {b : B}
    → (m >>= f) ≡ done b
    → (a : A) × (m ≡ done a) × (f a ≡ done b)
>>=-eq-done (done a) f h = (a, refl, h)
>>=-eq-done abort f h = cc
>>=-eq-done (exit code) f h = cc
>>=-eq-done fault f h = cc
>>=-eq-done out_of_fuel f h = cc

-- The value of a run that ends normally.
abbrev done_or {ℓ} : {A : Type ℓ} → A → Run A → A
done_or a (done b) = b
done_or a r = a

pub done-injective {ℓ} : {A : Type ℓ} {a b : A} → done a ≡ done b → a ≡ b
done-injective {a = a} p = ap (done_or a) p

-- A run that ends normally, by its parts.
abbrev pub Ends {ℓ} : {A : Type ℓ} → Run A → Type ℓ
Ends {A = A} m = (a : A) × (m ≡ done a)

pub >>=-Ends {ℓ κ} :
    {A : Type ℓ} {B : Type κ} (m : Run A) (f : A → Run B) {a : A}
    → m ≡ done a
    → Ends (f a)
    → Ends (m >>= f)
>>=-Ends m f {a = a} e (b, h) = (b, ap (λ r. r >>= f) e ∙ h)
