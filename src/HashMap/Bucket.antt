-- ===== src/HashMap/Bucket.antt =====
-- One bucket of the table: the entries in front of the terminating one.
pub mod Laws
pub mod Removal
use shellinabox.Base.{
  ℕ, zero, suc, ◌-◌, Bool, true, false, Option, none, some, List, [], ◌∷◌, ◌++◌, ◌==◌,
  if◌then◌else◌, Bytes, ◌==ˢ◌,
}
use shellinabox.HashMap.Effects.{Destructor, Event, Run, release, log}

abbrev pub Chain {ℓ} : Type ℓ → Type ℓ
Chain V = List (Bytes × V)

pub record Put {ℓ} (V : Type ℓ) : Type ℓ where
  pub chain : Chain V
  pub events : List (Event V)
  pub added : Bool

module _ {ℓ} {V : Type ℓ} where
  -- The scan of `getRefFromHashMap`.
  unfoldable pub find : Bytes → Chain V → Option V
  find key [] = none
  find key ((k, v) ∷ c) = if k ==ˢ key then some v else find key c

  -- The scan of `addToHashMap` and the write behind it: in place, or at the end.
  unfoldable pub put_chain : Destructor → Bytes → V → Chain V → Put V
  put_chain d key value [] = record { chain = (key, value) ∷ []; events = []; added = true }
  put_chain d key value ((k, v) ∷ c) =
      let p = put_chain d key value c in
      if k ==ˢ key
      then record { chain = (key, value) ∷ c; events = release d k v; added = false }
      else record { chain = (k, v) ∷ p.chain; events = p.events; added = p.added }

  -- The last entry of `e ∷ c`, and the entries in front of it.
  unfoldable pub last_of : (Bytes × V) → Chain V → Bytes × V
  last_of e [] = e
  last_of e (e' ∷ c) = last_of e' c

  unfoldable pub init_of : (Bytes × V) → Chain V → Chain V
  init_of e [] = []
  init_of e (e' ∷ c) = e ∷ init_of e' c

  abbrev onto : (Bytes × V) → Run V (Chain V × ℕ) → Run V (Chain V × ℕ)
  onto e none = none
  onto e (some ((c, n), events)) = some ((e ∷ c, n), events)

  -- The scan of `deleteFromHashMap`, with `numEntries`. A match takes the last entry's contents,
  -- the last place is cleared, and the scan goes on behind the match. `rounds` bounds the scan.
  unfoldable pub delete_chain : ℕ → Destructor → Bytes → Chain V → ℕ → Run V (Chain V × ℕ)
  unfolding last_of init_of
  delete_chain zero d key c n = some ((c, n), [])
  delete_chain (suc rounds) d key [] n = some (([], n), [])
  delete_chain (suc rounds) d key ((k, v) ∷ []) n =
      if k ==ˢ key
      then (if n == 0 then none else some (([], n - 1), release d k v))
      else some (((k, v) ∷ [], n), [])
  delete_chain (suc rounds) d key ((k, v) ∷ e ∷ c) n =
      let moved = onto (last_of e c) (delete_chain rounds d key (init_of e c) (n - 1)) in
      let kept = onto (k, v) (delete_chain rounds d key (e ∷ c) n) in
      if k ==ˢ key then (if n == 0 then none else log (release d k v) moved) else kept
