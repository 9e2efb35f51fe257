-- ===== src/Prelude/Partial.antt =====
-- What holds of the result of a step that may be undefined, if there is one.
use mathlib.Core.Path.{◌≡◌, refl, subst}
use mathlib.Core.Logic.{◌≢◌}
use mathlib.Core.Bool.{Bool, true, false}
use mathlib.Core.Option.{Option, none, some, some-injective}
use sysmngr.Prelude.Tests.{if◌then◌else◌}

-- The rest of a chain of steps that may fail.
infixl 5 ◌>>=◌
abbrev pub ◌>>=◌ {ℓ κ} : {A : Type ℓ} {B : Type κ} → Option A → (A → Option B) → Option B
none >>= f = none
some a >>= f = f a

pub if_some {ℓ} :
    {A : Type ℓ} (c : Bool) (t u : A) → (if c then some t else none) ≡ some u → (c ≡ true) × (t ≡ u)
if_some true t u e = (refl, some-injective _ _ e)
if_some false t u e = cc

pub none-some {ℓ} : {A : Type ℓ} (a : A) → none ≢ some a
none-some a e = cc

abbrev pub IfSome {ℓ κ} : {A : Type ℓ} → (A → Type κ) → Option A → Type (ℓ ⊔ κ)
IfSome {A = A} P o = (a : A) → o ≡ some a → P a

pub IfSome-some {ℓ κ} : {A : Type ℓ} (P : A → Type κ) (a : A) → P a → IfSome P (some a)
IfSome-some P a p t e = subst P (some-injective _ _ e) p

pub IfSome-bind {ℓ κ μ} :
    {A : Type ℓ} {B : Type κ} (P : B → Type μ) (o : Option A) (f : A → Option B)
    → ((a : A) → o ≡ some a → IfSome P (f a))
    → IfSome P (o >>= f)
IfSome-bind P none f h t e = cc
IfSome-bind P (some a) f h t e = h a refl t e
