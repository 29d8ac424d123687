-- ===== src/HashMap/Add.antt =====
-- `addToHashMap` against the map that the table stands for.
use shellinabox.Base.{
  ℕ, ◌+◌, ◌^◌, ◌<◌, ◌≡◌, refl, ◌∙◌, some, List, if◌then◌else◌, Bytes, ◌==ˢ◌, ==ˢ_refl, length,
  arith, set, length-set,
}
use shellinabox.HashMap.Effects.{Event, Returns}
use shellinabox.HashMap.Bucket.{Put, put_chain}
use shellinabox.HashMap.Bucket.Laws.{
  dropped, one_if_none, count-eq-zero, put_chain-find, put_chain-count, put_chain-length,
  put_chain-added, put_chain-events,
}
use shellinabox.HashMap.Table.{chain_of, view, total, IsPlaced, total-set, set-IsPlaced, set-view}
use shellinabox.HashMap.{HashMap, index, is_full, grown_size, add_entry}

module _ {ℓ} {V : Type ℓ} where
  -- The table `r` is `m` with `value` at `key`, and `events` hands the old value to the destructor.
  -- It has `buckets` buckets, and it counts `held` entries and the new one, if it is one.
  pub record AddsTo (buckets held : ℕ) (m : HashMap V) (key : Bytes) (value : V) (r : HashMap V)
      (events : List (Event V)) : Type ℓ where
    pub placed : IsPlaced r.entries
    pub reads :
        (q : Bytes) → view r.entries q ≡ (if key ==ˢ q then some value else view m.entries q)
    pub size : total r.entries ≡ total m.entries + one_if_none (view m.entries key)
    pub sized : length r.entries ≡ buckets
    pub counted : r.num_entries ≡ held + one_if_none (view m.entries key)
    pub kept : r.destructor ≡ m.destructor
    pub dropping : events ≡ dropped m.destructor key (view m.entries key)

  -- A full table grows, and counts every entry once more.
  unfoldable pub size_after : HashMap V → ℕ
  size_after m = if is_full m then grown_size (length m.entries) else length m.entries

  unfoldable pub count_after : HashMap V → ℕ
  count_after m = if is_full m then m.num_entries + total m.entries else m.num_entries

  abbrev pub Adds : HashMap V → Bytes → V → HashMap V → List (Event V) → Type ℓ
  Adds m = AddsTo (size_after m) (count_after m) m

  module _ (m : HashMap V) (key : Bytes) (value : V) (pos : 0 < length m.entries)
      (placed : IsPlaced m.entries) where
    added : Put V
    added = put_chain m.destructor key value (chain_of m.entries key)

    added_total :
        total (set m.entries (index key (length m.entries)) added.chain)
        ≡ total m.entries + one_if_none (view m.entries key)
    unfolding added view
    added_total = omega (
      arith,
      total-set m.entries (index key (length m.entries)) added.chain (omega arith),
      put_chain-length m.destructor key value (chain_of m.entries key),
    )

    added-IsPlaced : IsPlaced (set m.entries (index key (length m.entries)) added.chain)
    unfolding added
    added-IsPlaced =
        let c = chain_of m.entries key in
        set-IsPlaced m.entries pos placed key added.chain
          (ground (
            arith,
            put_chain-count m.destructor key value key c,
            placed key (index key (length m.entries)),
            count-eq-zero key c,
          ))
          (λ q other. rw (put_chain-count, other) (omega arith))

    added_reads :
        (q : Bytes)
        → view (set m.entries (index key (length m.entries)) added.chain) q
          ≡ (if key ==ˢ q then some value else view m.entries q)
    unfolding added
    added_reads q =
        set-view m.entries pos placed key added.chain q (λ other. rw (put_chain-find, other))
        ∙ rw (put_chain-find, ==ˢ_refl)

    pub add_entry-Adds :
        m.num_entries + 1 < 2 ^ 31
        → Returns (add_entry m key value) (AddsTo (length m.entries) m.num_entries m key value)
    unfolding add_entry added
    add_entry-Adds low =
        let c = chain_of m.entries key in
        (
          record m {
            entries = set m.entries (index key (length m.entries)) added.chain;
            num_entries = if added.added then m.num_entries + 1 else m.num_entries;
          },
          added.events,
          ground arith,
          record {
            placed = added-IsPlaced;
            reads = added_reads;
            size = added_total;
            sized = length-set m.entries (index key (length m.entries)) added.chain;
            counted = unfold view in ground (arith, put_chain-added m.destructor key value c);
            kept = refl;
            dropping = unfold view in put_chain-events m.destructor key value c;
          },
        )
