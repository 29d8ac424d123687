-- ===== src/Tests/HashMap.antt =====
-- The hash table at concrete keys.
use mathlib.Core.List.{Perm}
use shellinabox.Base.{
  codes, ℕ, zero, suc, ◌<◌, ◌+◌, ◌≡◌, refl, false, none, ◌∷◌, [], List, Bytes, arith, All, some,
  replicate, sym, ◌==ˢ◌, ==ˢ_iff, Bool-cases, inl, inr,
}
use shellinabox.HashMap.{
  HashMap, index, is_full, grown_size, init_hash_map, string_hash, add_to_hash_map,
  delete_from_hash_map, get_ref_from_hash_map,
}
use shellinabox.HashMap.Effects.{present, destroyed, release, Returns}
use shellinabox.HashMap.Bucket.Laws.{count}
use shellinabox.HashMap.Table.{IsPlaced, total}
use shellinabox.HashMap.Refines.{
  Call, add, delete, calls, spec_call, spec_calls, IsDeterminate, calls-refine_map,
}
use shellinabox.HashMap.Add.{Adds}
use shellinabox.HashMap.Growth.{HasRoom, add_to_hash_map-Adds, add_to_hash_map-miscounts}
use shellinabox.HashMap.Delete.{Deletes, delete_from_hash_map-Deletes}
use shellinabox.HashMap.Flat.{flat}
use shellinabox.HashMap.Iterate.{Callback, iterate_over_hash_map}
use shellinabox.HashMap.Iterate.Visits.{noting, iterate_over_hash_map-Perm}

abbrev script : List (Call ℕ)
script =
    add (codes "host") 1
    ∷ add (codes "origin") 2
    ∷ add (codes "host") 3
    ∷ delete (codes "origin")
    ∷ []

string_hash-host : string_hash (codes "host") ≡ 3208616
unfolding string_hash
string_hash-host = refl

calls-refine_map_example : Returns (calls (init_hash_map present) script) λ r events.
    ((q : Bytes) → get_ref_from_hash_map r q ≡ spec_calls (λ _. none) script q)
    × All IsDeterminate events
unfolding spec_call ◌==ˢ◌
calls-refine_map_example = calls-refine_map present script (λ h. cc) (omega arith)

-- Two buckets with one entry.
abbrev small : HashMap ℕ
small = record {
  destructor = present;
  entries = ((codes "host", 1) ∷ []) ∷ [] ∷ [];
  num_entries = 1;
}

index-host : index (codes "host") 2 ≡ 0
unfolding string_hash
index-host = refl

small-IsPlaced : IsPlaced small.entries
unfolding count
small-IsPlaced q zero = elim (Bool-cases (codes "host" ==ˢ q)) [
  | inl e ↦
      let same : codes "host" ≡ q = (==ˢ_iff (codes "host") q).0 e in
      (ground arith, λ ne. absurd (ne (rw (← same) (sym index-host))))
  | inr e ↦ (ground arith, λ ne. ground (arith, e))
]
small-IsPlaced q (suc zero) = ground arith
small-IsPlaced q (suc (suc i)) = ground arith

small-HasRoom : HasRoom small
unfolding total grown_size
small-HasRoom = record { small = omega arith; room = λ full. omega arith }

-- A key that is added again to a full table makes it grow.
add_to_hash_map-full :
    add_to_hash_map 2 small (codes "host") 5
    ≡ some (
      record {
        destructor = present;
        entries = ((codes "host", 5) ∷ []) ∷ [] ∷ [] ∷ [] ∷ [];
        num_entries = 2;
      },
      destroyed (codes "host") 1 ∷ [],
    )
unfolding add_to_hash_map replicate string_hash ◌==ˢ◌ release
add_to_hash_map-full = refl

add_to_hash_map-Adds_example :
    Returns (add_to_hash_map 2 small (codes "host") 5) (Adds small (codes "host") 5)
add_to_hash_map-Adds_example =
    add_to_hash_map-Adds 2 small (codes "host") 5 small-IsPlaced (unfold total in omega arith)
      small-HasRoom

add_to_hash_map-miscounts_example :
    Returns (add_to_hash_map 2 small (codes "via") 5) λ r _. total r.entries < r.num_entries
unfolding total is_full
add_to_hash_map-miscounts_example =
    add_to_hash_map-miscounts 2 small (codes "via") 5 small-IsPlaced (omega arith) small-HasRoom
      (omega arith) (omega arith) refl

delete_from_hash_map-Deletes_example :
    Returns (delete_from_hash_map small (codes "host")) (Deletes small (codes "host"))
delete_from_hash_map-Deletes_example =
    delete_from_hash_map-Deletes small (codes "host") small-IsPlaced (unfold total in omega arith)

-- Drops every entry.
abbrev drop_all : Callback ℕ ℕ
drop_all s k v = (s + v, v, false)

iterate_over_hash_map-Perm_example :
    Perm (iterate_over_hash_map small (noting drop_all) (0, [])).state.1 (flat small.entries)
iterate_over_hash_map-Perm_example = iterate_over_hash_map-Perm small drop_all 0
