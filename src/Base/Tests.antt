-- ===== src/Base/Tests.antt =====
-- Boolean tests on native numbers and on byte strings.
use Prim.Native.Nat.{ℕ, ◌≤◌, ◌<◌, compare, Ordering}
use mathlib.Core.Bool.{Bool, true, false, ◌&&◌}
use mathlib.Core.List.{List, [], ◌∷◌}
use mathlib.Core.Logic.{◌⊎◌, ◌↔◌, inl, inr}
use mathlib.Core.Option.{Option, none, some}
use mathlib.Core.Path.{◌≡◌, refl}
use native.Mathlib.Omega.{arith}

abbrev pub ltb : ℕ → ℕ → Bool
ltb a b = elim (compare a b) [ Ordering.lt ↦ true | _ ↦ false ]

abbrev pub leb : ℕ → ℕ → Bool
leb a b = elim (compare a b) [ Ordering.gt ↦ false | _ ↦ true ]

infix 50 ◌==◌
abbrev pub ◌==◌ : ℕ → ℕ → Bool
a == b = elim (compare a b) [ Ordering.eq ↦ true | _ ↦ false ]

infix 1 if◌then◌else◌
abbrev pub if◌then◌else◌ {ℓ} : {A : Type ℓ} → Bool → A → A → A
if true then x else y = x
if false then x else y = y

pub ltb→lt : (a b : ℕ) → ltb a b ≡ true → a < b
ltb→lt a b h = ground arith

pub lt→ltb : (a b : ℕ) → a < b → ltb a b ≡ true
lt→ltb a b h = ground arith

pub leb→le : (a b : ℕ) → leb a b ≡ true → a ≤ b
leb→le a b h = ground arith

pub ruleset tests = (arith, ltb→lt, lt→ltb, leb→le)

pub Bool-cases : (b : Bool) → (b ≡ true) ⊎ (b ≡ false)
Bool-cases true = inl refl
Bool-cases false = inr refl

pub Option-cases {ℓ} : {A : Type ℓ} (o : Option A) → (o ≡ none) ⊎ ((a : A) × (o ≡ some a))
Option-cases none = inl refl
Option-cases (some a) = inr (a, refl)

-- The bytes of a C string, without its terminating NUL, or of a buffer with a length.
abbrev pub Bytes : Type 0
Bytes = List ℕ

-- `!strcmp(a, b)`
infix 50 ◌==ˢ◌
unfoldable pub ◌==ˢ◌ : Bytes → Bytes → Bool
[] ==ˢ [] = true
(x ∷ xs) ==ˢ (y ∷ ys) = x == y && xs ==ˢ ys
_ ==ˢ _ = false

pub ==ˢ_iff : (a b : Bytes) → ((a ==ˢ b) ≡ true) ↔ (a ≡ b)
unfolding ◌==ˢ◌
==ˢ_iff (x ∷ a) (y ∷ b) = ground (arith, ==ˢ_iff a b)
==ˢ_iff _ _ = ground arith

pub ==ˢ_refl : (a : Bytes) → (a ==ˢ a) ≡ true
==ˢ_refl a = (==ˢ_iff a a).1 refl
