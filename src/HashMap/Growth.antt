-- ===== src/HashMap/Growth.antt =====
-- The growth inside `addToHashMap`: all entries move to a larger table, by calls of the function
-- itself. Where the larger table has room for them, these calls do not grow it again.
use shellinabox.Base.{
  ℕ, zero, suc, ◌+◌, ◌*◌, ◌/◌, ◌^◌, ◌≤◌, ◌<◌, ◌≡◌, refl, ◌∙◌, true, false, List, [], Bytes, length,
  arith, length-replicate, inl, inr, Bool-cases,
}
use mathlib.Core.Option.{or_else}
use mathlib.Core.Path.{ap₂}
use shellinabox.HashMap.Effects.{Event, Returns}
use shellinabox.HashMap.Bucket.{Chain}
use shellinabox.HashMap.Bucket.Laws.{dropped}
use shellinabox.HashMap.Table.{
  view, total, IsPlaced, total-replicate, replicate-IsPlaced, view-replicate,
}
use shellinabox.HashMap.Flat.{flat, length-flat, flat-view, flat-count}
use shellinabox.HashMap.Add.{AddsTo, size_after, count_after, Adds, add_entry-Adds}
use shellinabox.HashMap.{HashMap, is_full, overflows, grown_size, new_map, grow, add_to_hash_map}
use shellinabox.HashMap.Moves.{Adder, Spare, AddsSpare, move_all-flat, move_chain-Moves}

grown_size_pos : (n : ℕ) → 0 < grown_size n
unfolding grown_size
grown_size_pos n = ground arith

module _ {ℓ} {V : Type ℓ} where
  -- The grown table holds the same entries, and nothing was dropped; `doubled` says that every
  -- entry has been counted once more.
  record Grows (m : HashMap V) (r : HashMap V) (events : List (Event V)) : Type ℓ where
    placed : IsPlaced r.entries
    reads : (q : Bytes) → view r.entries q ≡ view m.entries q
    size : total r.entries ≡ total m.entries
    sized : length r.entries ≡ grown_size (length m.entries)
    doubled : r.num_entries ≡ m.num_entries + total m.entries
    kept : r.destructor ≡ m.destructor
    quiet : events ≡ []

  module _ (add : Adder V) where
    grow-Grows :
        (m : HashMap V)
        → (0 < total m.entries → AddsSpare add)
        → IsPlaced m.entries
        → Spare (total m.entries) (new_map m)
        → Returns (grow add m) (Grows m)
    unfolding grow new_map or_else
    grow-Grows m adds placed room =
        let n = grown_size (length m.entries) in
        let (r, e, run, t) =
          move_chain-Moves add (flat m.entries) (new_map m)
            (λ h. adds (omega (arith, length-flat m.entries, h))) (replicate-IsPlaced V n)
            (omega (arith, length-flat m.entries, room)) (flat-count m.entries placed)
            (λ q _. view-replicate V n q) in
        (
          record m { entries = r.entries; num_entries = r.num_entries },
          [],
          ground (arith, move_all-flat add m.entries (new_map m), run, t.quiet),
          record {
            placed = t.placed;
            reads =
                λ q. ground (arith, t.reads q, view-replicate V n q, flat-view m.entries placed q);
            size = omega (arith, t.size, total-replicate V n, length-flat m.entries);
            sized = t.sized ∙ length-replicate n [];
            doubled = omega (arith, t.counted, length-flat m.entries);
            kept = refl;
            quiet = refl;
          },
        )

  Grows-AddsTo :
      (m g r : HashMap V) (key : Bytes) (value : V) (e e' : List (Event V))
      → Grows m g e
      → AddsTo (length g.entries) g.num_entries g key value r e'
      → AddsTo (grown_size (length m.entries)) (m.num_entries + total m.entries) m key value r e'
  Grows-AddsTo m g r key value e e' t a = record {
    placed = a.placed;
    reads = λ q. ground (arith, a.reads q, t.reads q);
    size = ground (arith, a.size, t.size, t.reads key);
    sized = a.sized ∙ t.sized;
    counted = ground (arith, a.counted, t.doubled, t.reads key);
    kept = a.kept ∙ t.kept;
    dropping = a.dropping ∙ ap₂ (λ d o. dropped d key o) t.kept (t.reads key);
  }

  add_to_hash_map-spare : (fuel : ℕ) → 0 < fuel → AddsSpare {V = V} (add_to_hash_map fuel)
  unfolding add_to_hash_map is_full overflows
  add_to_hash_map-spare zero h m key value placed room = absurd (omega arith)
  add_to_hash_map-spare (suc fuel) h m key value placed room =
      let (r, e, run, a) =
        add_entry-Adds m key value (omega (arith, room)) placed (omega (arith, room)) in
      (r, e, ground (arith, run, room.0, room.1), a)

  -- The table is not near the size where ints overflow, and if it is full, then the larger table
  -- has room for its count and for counting every entry once more.
  pub record HasRoom (m : HashMap V) : Type 0 where
    pub small : length m.entries < 2 ^ 27
    pub room :
        is_full m ≡ true → m.num_entries + total m.entries ≤ grown_size (length m.entries) * 8 / 10

  new_map-Spare :
      (m : HashMap V) → HasRoom m → is_full m ≡ true → Spare (total m.entries) (new_map m)
  unfolding new_map grown_size
  new_map-Spare m h full =
      let n = grown_size (length m.entries) in
      (
        rw (length-replicate {A = Chain V} n []) (h.room full),
        rw (length-replicate {A = Chain V} n []) (ground (arith, h.small)),
      )

  low_count :
      (m : HashMap V) → HasRoom m → is_full m ≡ true → m.num_entries + total m.entries + 1 < 2 ^ 31
  unfolding grown_size
  low_count m h full = ground (arith, h.small, h.room full)

  low : (m : HashMap V) → HasRoom m → overflows m ≡ false
  unfolding overflows is_full grown_size
  low m h = ground (arith, h.small, h.room)

  -- With fuel for one call more than there are entries, and room, `addToHashMap` returns: the table
  -- then holds `value` at `key` and is unchanged at all other keys, the old value, if any, has been
  -- handed to the destructor, and nothing else has; a full table has its grown size and counts
  -- every entry once more, and the count rises by one exactly if the key is new.
  pub add_to_hash_map-Adds :
      (fuel : ℕ) (m : HashMap V) (key : Bytes) (value : V)
      → IsPlaced m.entries
      → total m.entries < fuel
      → HasRoom m
      → Returns (add_to_hash_map fuel m key value) (Adds m key value)
  unfolding add_to_hash_map size_after count_after
  add_to_hash_map-Adds zero m key value placed deep fits = absurd (omega arith)
  add_to_hash_map-Adds (suc fuel) m key value placed deep fits = elim (Bool-cases (is_full m)) [
    | inl full ↦
        let spare = new_map-Spare m fits full in
        let (g, e, run, t) =
          grow-Grows (add_to_hash_map fuel) m (λ h. add_to_hash_map-spare fuel (omega arith)) placed
            spare in
        let (r, e', run', a) =
          add_entry-Adds g key value (rw t.sized (grown_size_pos (length m.entries))) t.placed
            (omega (arith, t.doubled, low_count m fits full)) in
        (
          r,
          e',
          ground (arith, low m fits, full, run, run', t.quiet),
          rw full (Grows-AddsTo m g r key value e e' t a),
        )
    | inr spare ↦
        let room : Spare 1 m = unfold is_full in ground (arith, spare, fits.small) in
        let (r, e, run, a) =
          add_entry-Adds m key value (omega (arith, room)) placed (omega (arith, room)) in
        (r, e, ground (arith, low m fits, spare, run), rw spare a)
  ]

  -- A growth counts every entry again: adding to a full table with room, which is not empty, whose
  -- keys stand in their buckets and whose count covers its entries, leaves `numEntries` above the
  -- number of entries.
  pub add_to_hash_map-miscounts :
      (fuel : ℕ) (m : HashMap V) (key : Bytes) (value : V)
      → IsPlaced m.entries
      → total m.entries < fuel
      → HasRoom m
      → total m.entries ≤ m.num_entries
      → 0 < total m.entries
      → is_full m ≡ true
      → Returns (add_to_hash_map fuel m key value) λ r _. total r.entries < r.num_entries
  unfolding count_after
  add_to_hash_map-miscounts fuel m key value placed deep fits covered some_entry full =
      let (r, e, run, a) = add_to_hash_map-Adds fuel m key value placed deep fits in
      (r, e, run, ground (arith, full, a.counted, a.size))
