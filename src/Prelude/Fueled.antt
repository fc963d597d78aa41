-- ===== src/Prelude/Fueled.antt =====
-- The result of code that may throw, run on fuel.
use Prim.Native.String.{String}
use mathlib.Core.Path.{◌≡◌, refl}
use mathlib.Core.Option.{Option, none, some}

pub data Fueled {ℓ} (A : Type ℓ) : Type ℓ where
  out_of_fuel : Fueled A
  thrown : String → Fueled A
  done : A → Fueled A

infixl 5 ◌>>=◌
abbrev pub ◌>>=◌ {ℓ κ} : {A : Type ℓ} {B : Type κ} → Fueled A → (A → Fueled B) → Fueled B
out_of_fuel >>= next = out_of_fuel
thrown message >>= next = thrown message
done value >>= next = next value

-- the `!` of a lookup, and a guard that throws
abbrev pub present {ℓ} : {A : Type ℓ} → String → Option A → Fueled A
present message none = thrown message
present message (some value) = done value

pub >>=-eq-done {ℓ κ} :
    {A : Type ℓ} {B : Type κ} (m : Fueled A) (f : A → Fueled B) {b : B}
    → (m >>= f) ≡ done b
    → (a : A) × (m ≡ done a) × (f a ≡ done b)
>>=-eq-done (done a) f h = (a, refl, h)
>>=-eq-done (thrown message) f h = cc
>>=-eq-done out_of_fuel f h = cc
