-- ===== src/Base/Options.antt =====
-- Chains of fallible steps.
use mathlib.Core.Path.{◌≡◌, refl}
use mathlib.Core.Bool.{Bool, true, false}
use mathlib.Core.Option.{Option, none, some}

-- Transparent, so that a step that succeeds computes.
infixl 5 ◌>>=◌
abbrev pub ◌>>=◌ {ℓ κ} : {A : Type ℓ} {B : Type κ} → Option A → (A → Option B) → Option B
none >>= f = none
some a >>= f = f a

-- A chain that succeeds: so did its first step.
pub >>=-eq_some {ℓ κ} :
    {A : Type ℓ} {B : Type κ} (m : Option A) (f : A → Option B) (b : B)
    → (m >>= f) ≡ some b
    → (a : A) × (m ≡ some a) × (f a ≡ some b)
>>=-eq_some none f b h = absurd cc
>>=-eq_some (some a) f b h = (a, refl, h)

-- A step that stands for an allocation or a guard.
abbrev pub when {ℓ} : {A : Type ℓ} → Bool → Option A → Option A
when true m = m
when false m = none

pub when-eq_some {ℓ} :
    {A : Type ℓ} (b : Bool) (m : Option A) (a : A) → when b m ≡ some a → (b ≡ true) × (m ≡ some a)
when-eq_some true m a h = (refl, h)
when-eq_some false m a h = absurd cc
