-- ===== src/HashMap/Iterate.antt =====
-- `iterateOverHashMap` and `destroyHashMap`. The callback is a function `fnc` on a state of its own
-- (`arg`): it may write the value, and its last result says whether the entry stays.
pub mod Visits
use shellinabox.Base.{
  ℕ, zero, suc, Bool, true, false, List, [], ◌∷◌, ◌++◌, if◌then◌else◌, Bytes, length,
}
use shellinabox.HashMap.Effects.{Destructor, Event, release}
use shellinabox.HashMap.Bucket.{Chain, last_of, init_of}
use shellinabox.HashMap.{HashMap}

abbrev pub Callback {ℓ} : Type ℓ → Type ℓ → Type ℓ
Callback S V = S → Bytes → V → S × V × Bool

-- The callback's state, the buckets and the destructor's calls behind a part of the loop.
pub record Walk {ℓ} (S V A : Type ℓ) : Type ℓ where
  pub state : S
  pub left : A
  pub events : List (Event V)

module _ {ℓ} {S V : Type ℓ} (d : Destructor) (fnc : Callback S V) where
  -- The loop over one bucket, from the place `j` on. A dropped entry's place is filled by the last
  -- entry, which is visited next. `rounds` bounds the loop: one for each entry that is left.
  unfoldable pub iterate_chain : ℕ → S → Chain V → Walk S V (Chain V)
  unfolding last_of init_of
  iterate_chain zero s c = record { state = s; left = c; events = [] }
  iterate_chain (suc rounds) s [] = record { state = s; left = []; events = [] }
  iterate_chain (suc rounds) s ((k, v) ∷ []) =
      let (s', v', keep) = fnc s k v in
      if keep
      then record { state = s'; left = (k, v') ∷ []; events = [] }
      else record { state = s'; left = []; events = release d k v' }
  iterate_chain (suc rounds) s ((k, v) ∷ e ∷ c) =
      let (s', v', keep) = fnc s k v in
      let on = iterate_chain rounds s' (e ∷ c) in
      let again = iterate_chain rounds s' (last_of e c ∷ init_of e c) in
      if keep
      then record { state = on.state; left = (k, v') ∷ on.left; events = on.events }
      else record {
        state = again.state;
        left = again.left;
        events = release d k v' ++ again.events;
      }

  -- The loop over the buckets.
  unfoldable pub iterate_all : S → List (Chain V) → Walk S V (List (Chain V))
  unfolding iterate_chain
  iterate_all s [] = record { state = s; left = []; events = [] }
  iterate_all s (c ∷ cs) =
      let w = iterate_chain (length c) s c in
      let r = iterate_all w.state cs in
      record { state = r.state; left = w.left ∷ r.left; events = w.events ++ r.events }

-- `iterateOverHashMap`. `numEntries` is not written.
unfoldable pub iterate_over_hash_map {ℓ} :
    {S V : Type ℓ} → HashMap V → Callback S V → S → Walk S V (HashMap V)
unfolding iterate_all
iterate_over_hash_map m fnc s =
    let w = iterate_all m.destructor fnc s m.entries in
    record { state = w.state; left = record m { entries = w.left }; events = w.events }

-- `destroyHashMap`: the destructor's calls.
unfoldable pub destroy_chain {ℓ} : {V : Type ℓ} → Destructor → Chain V → List (Event V)
destroy_chain d [] = []
destroy_chain d ((k, v) ∷ c) = release d k v ++ destroy_chain d c

unfoldable pub destroy_all {ℓ} : {V : Type ℓ} → Destructor → List (Chain V) → List (Event V)
unfolding destroy_chain
destroy_all d [] = []
destroy_all d (c ∷ cs) = destroy_chain d c ++ destroy_all d cs

unfoldable pub destroy_hash_map {ℓ} : {V : Type ℓ} → HashMap V → List (Event V)
unfolding destroy_all
destroy_hash_map m = destroy_all m.destructor m.entries
