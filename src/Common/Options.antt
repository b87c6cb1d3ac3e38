-- ===== src/Common/Options.antt =====
-- Chains of steps that may fail.
use mathlib.Core.Path.{◌≡◌, refl}
use mathlib.Core.Option.{Option, none, some}

infixl 5 ◌>>=◌
abbrev pub ◌>>=◌ {ℓ κ} : {A : Type ℓ} {B : Type κ} → Option A → (A → Option B) → Option B
none >>= f = none
some a >>= f = f a

pub some_path {ℓ} : {A : Type ℓ} {a b : A} → some a ≡ some b → a ≡ b
some_path e = cc

pub >>=-eq-some {ℓ κ} :
    {A : Type ℓ} {B : Type κ} (m : Option A) (f : A → Option B) {b : B}
    → (m >>= f) ≡ some b
    → (a : A) × (m ≡ some a) × (f a ≡ some b)
>>=-eq-some none f h = cc
>>=-eq-some (some a) f h = (a, refl, h)
