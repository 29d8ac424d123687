-- ===== src/Base/Results.antt =====
-- What holds of a result, if there is one.

use mathlib.Core.Path.{◌≡◌, refl}
use mathlib.Core.Bool.{Bool, true, false}
use mathlib.Core.Option.{Option, none, some}
use shellinabox.Base.Tests.{if◌then◌else◌}

abbrev pub Leaves {ℓ} : {A : Type ℓ} → (A → Type 0) → Option A → Type 0
Leaves P none = Unit
Leaves P (some a) = P a

pub Leaves-bind {ℓ} :
    {A B : Type ℓ} (P : B → Type 0) (o : Option A) (f : A → Option B)
    → ((a : A) → o ≡ some a → Leaves P (f a))
    → Leaves P (elim o [ none ↦ none | some a ↦ f a ])
Leaves-bind P none f h = tt
Leaves-bind P (some a) f h = h a refl

pub Leaves-if {ℓ} :
    {A : Type ℓ} (P : A → Type 0) (b : Bool) (x y : Option A)
    → (b ≡ true → Leaves P x)
    → (b ≡ false → Leaves P y)
    → Leaves P (if b then x else y)
Leaves-if P true x y h k = h refl
Leaves-if P false x y h k = k refl
