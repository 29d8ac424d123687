-- ===== src/HashMap.antt =====
-- libhttp/hashmap.c: a chained hash table from C strings to pointers. Keys are strings by value,
-- and `V` is what the values point to. A bucket that is NULL and a bucket that holds the
-- terminating entry alone are both the empty chain; `mapSize` is the length of `entries`. Counts and
-- sizes are of type int: where one overflows, which C leaves undefined, the run fails.
pub mod Bucket
pub mod Effects
pub mod Table
pub mod Flat
pub mod Delete
pub mod Refines
pub mod Iterate
pub mod Add
pub mod Growth
pub mod Stages
pub mod Moves
use shellinabox.Base.{
  ℕ, zero, suc, ◌+◌, ◌-◌, ◌*◌, ◌/◌, ◌%◌, ◌^◌, Bool, true, false, ◌&&◌, ◌||◌, Option, none, some,
  List, [], ◌∷◌, ltb, leb, ◌==◌, if◌then◌else◌, Bytes, length, get_or, set, replicate,
}
use Bucket.{Chain, Put, put_chain, delete_chain, find}
use Effects.{Destructor, absent, indeterminate, Event, Run, ◌>>=◌, return}

pub record HashMap {ℓ} (V : Type ℓ) : Type ℓ where
  pub destructor : Destructor
  pub entries : List (Chain V)
  pub num_entries : ℕ

-- The loop of `stringHashFunc` from a given `h`; `unsigned int` has 32 bits.
unfoldable pub hash_from : ℕ → Bytes → ℕ
hash_from h [] = h
hash_from h (c ∷ s) = hash_from ((31 * h + c) % 2 ^ 32) s

unfoldable pub string_hash : Bytes → ℕ
unfolding hash_from
string_hash s = hash_from 0 s

-- `idx`, the bucket of a key in a table of `n` buckets.
abbrev pub index : Bytes → ℕ → ℕ
index key n = string_hash key % n

-- `newMap.mapSize`
unfoldable pub grown_size : ℕ → ℕ
grown_size n = if n == 0 then 32 else if ltb n 1024 then 2 * n else n + 1024

module _ {ℓ} {V : Type ℓ} where
  unfoldable pub init_hash_map : Destructor → HashMap V
  init_hash_map d = record { destructor = d; entries = []; num_entries = 0 }

  -- `numEntries + 1 > (mapSize * 8) / 10`
  unfoldable pub is_full : HashMap V → Bool
  is_full m = ltb (length m.entries * 8 / 10) (m.num_entries + 1)

  -- `mapSize * 8` or `numEntries + 1` is more than an int holds.
  unfoldable pub overflows : HashMap V → Bool
  overflows m = leb (2 ^ 31) (length m.entries * 8) || leb (2 ^ 31) (m.num_entries + 1)

  -- `addToHashMap` behind the growth. A table with no bucket would divide by zero, and `numEntries++`
  -- may overflow: the run fails.
  unfoldable pub add_entry : HashMap V → Bytes → V → Run V (HashMap V)
  unfolding put_chain
  add_entry m key value =
      let idx = index key (length m.entries) in
      let p : Put V = put_chain m.destructor key value (get_or m.entries idx []) in
      if length m.entries == 0 || (p.added && leb (2 ^ 31) (m.num_entries + 1))
      then none
      else some (
        record m {
          entries = set m.entries idx p.chain;
          num_entries = if p.added then m.num_entries + 1 else m.num_entries;
        },
        p.events,
      )

  -- The inner and the outer loop that fill `newMap`; `add` is the recursive call.
  unfoldable pub move_chain :
      (HashMap V → Bytes → V → Run V (HashMap V)) → Chain V → HashMap V → Run V (HashMap V)
  move_chain add [] m = return m
  move_chain add ((key, value) ∷ c) m = add m key value >>= move_chain add c

  unfoldable pub move_all :
      (HashMap V → Bytes → V → Run V (HashMap V)) → List (Chain V) → HashMap V → Run V (HashMap V)
  unfolding move_chain
  move_all add [] m = return m
  move_all add (c ∷ cs) m = move_chain add c m >>= move_all add cs

  -- `newMap` on the stack: its `destructor` is not initialised, and its `numEntries` is copied.
  unfoldable pub new_map : HashMap V → HashMap V
  new_map m = record {
    destructor = indeterminate;
    entries = replicate (grown_size (length m.entries)) [];
    num_entries = m.num_entries;
  }

  -- The body of the first `if` of `addToHashMap`.
  unfoldable pub grow : (HashMap V → Bytes → V → Run V (HashMap V)) → HashMap V → Run V (HashMap V)
  unfolding move_all new_map grown_size
  grow add m = move_all add m.entries (new_map m) >>= λ fresh.
      return (record m { entries = fresh.entries; num_entries = fresh.num_entries })

  -- `addToHashMap`. The C function calls itself on `newMap`: the fuel bounds the depth of the calls.
  unfoldable pub add_to_hash_map : ℕ → HashMap V → Bytes → V → Run V (HashMap V)
  unfolding grow is_full overflows add_entry
  add_to_hash_map zero m key value = none
  add_to_hash_map (suc fuel) m key value =
      let grown = grow (add_to_hash_map fuel) m in
      let added = (if is_full m then grown else return m) >>= λ m'. add_entry m' key value in
      if overflows m then none else added

  -- `deleteFromHashMap`; `none` where `check(--numEntries >= 0)` aborts the program.
  unfoldable pub delete_from_hash_map : HashMap V → Bytes → Run V (HashMap V)
  unfolding delete_chain
  delete_from_hash_map m key =
      let idx = index key (length m.entries) in
      let c = get_or m.entries idx [] in
      let r = delete_chain (length c) m.destructor key c m.num_entries in
      if length m.entries == 0 then return m else elim r [
        | none ↦ none
        | some ((c', n), events) ↦
            some (record m { entries = set m.entries idx c'; num_entries = n }, events)
      ]

  -- `getRefFromHashMap`, by the value that the result points to.
  unfoldable pub get_ref_from_hash_map : HashMap V → Bytes → Option V
  unfolding find
  get_ref_from_hash_map m key =
      if length m.entries == 0
      then none
      else find key (get_or m.entries (index key (length m.entries)) [])
