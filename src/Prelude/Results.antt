-- ===== src/Prelude/Results.antt =====
-- `throw new Error(message)` as a value, and the monads of the passes: failure, and failure with state.
use Prim.Native.String.{String}
use mathlib.Core.Path.{◌≡◌, refl}
use mathlib.Core.Option.{Option, none, some}

pub data Result {ℓ} (A : Type ℓ) : Type ℓ where
  err : String → Result A
  ok : A → Result A

pub eq_of_ok {ℓ} : {A : Type ℓ} {a b : A} → ok a ≡ ok b → a ≡ b
eq_of_ok h = cc

infixl 5 ◌>>=◌
abbrev pub ◌>>=◌ {ℓ κ} : {A : Type ℓ} {B : Type κ} → Result A → (A → Result B) → Result B
err message >>= next = err message
ok value >>= next = next value

-- Inversion of a bind that has a result.
pub >>=-eq-ok {ℓ κ} :
    {A : Type ℓ} {B : Type κ} (first : Result A) (next : A → Result B) {b : B}
    → (first >>= next) ≡ ok b
    → (a : A) × (first ≡ ok a) × (next a ≡ ok b)
>>=-eq-ok (err message) next h = cc
>>=-eq-ok (ok value) next h = (value, refl, h)

pub bind_assoc {ℓ κ μ} :
    {A : Type ℓ} {B : Type κ} {C : Type μ} (first : Result A) (f : A → Result B) (g : B → Result C)
    → (first >>= f >>= g) ≡ (first >>= λ a. f a >>= g)
bind_assoc (err message) f g = refl
bind_assoc (ok value) f g = refl

-- the `!` of a lookup, and the guard `if (!x) throw new Error()`
abbrev pub expect {ℓ} : {A : Type ℓ} → String → Option A → Result A
expect message none = err message
expect message (some a) = ok a

pub expect-eq-ok {ℓ κ} :
    {A : Type ℓ} {B : Type κ} (message : String) (o : Option A) (f : A → Result B) {b : B}
    → (expect message o >>= f) ≡ ok b
    → (a : A) × (o ≡ some a) × (f a ≡ ok b)
expect-eq-ok message none f h = cc
expect-eq-ok message (some a) f h = (a, refl, h)
