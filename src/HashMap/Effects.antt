-- ===== src/HashMap/Effects.antt =====
-- The effects of the table's operations: calls of the destructor, and aborts.
use shellinabox.Base.{◌≡◌, Option, none, some, List, [], ◌∷◌, ◌++◌, Bytes}

-- The field `destructor`: NULL, a function, or memory that nobody has written.
pub data Destructor : Type 0 where
  absent present indeterminate : Destructor

pub data Event {ℓ} (V : Type ℓ) : Type ℓ where
  destroyed : Bytes → V → Event V
  indeterminate_read : Event V

-- A result with the calls of the destructor so far; `none` for an abort, an overflow, or for fuel that
-- ran out.
abbrev pub Run {ℓ} : Type ℓ → Type ℓ → Type ℓ
Run V A = Option (A × List (Event V))

module _ {ℓ} {V : Type ℓ} where
  -- `if (hashmap->destructor) hashmap->destructor(arg, key, value)`
  unfoldable pub release : Destructor → Bytes → V → List (Event V)
  release absent key value = []
  release present key value = destroyed key value ∷ []
  release indeterminate key value = indeterminate_read ∷ []

  abbrev pub log : {A : Type ℓ} → List (Event V) → Run V A → Run V A
  log events none = none
  log events (some (a, later)) = some (a, events ++ later)

  infixl 5 ◌>>=◌
  abbrev pub ◌>>=◌ : {A B : Type ℓ} → Run V A → (A → Run V B) → Run V B
  none >>= f = none
  some (a, events) >>= f = log events (f a)

  abbrev pub return : {A : Type ℓ} → A → Run V A
  return a = some (a, [])

  -- The call ends normally, in a value and a log that satisfy `P`.
  abbrev pub Returns {κ} : {A : Type ℓ} → Run V A → (A → List (Event V) → Type κ) → Type (ℓ ⊔ κ)
  Returns {A} r P = (a : A) × (events : List (Event V)) × (r ≡ some (a, events)) × P a events
