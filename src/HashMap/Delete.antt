-- ===== src/HashMap/Delete.antt =====
-- `deleteFromHashMap` and `getRefFromHashMap` against the map that the table stands for.
use shellinabox.Base.{
  ℕ, suc, ◌+◌, ◌-◌, ◌≤◌, ◌<◌, ◌≡◌, refl, ◌∙◌, none, some, List, [], ◌∷◌, ◌==◌, if◌then◌else◌, Bytes,
  ◌==ˢ◌, ==ˢ_iff, ==ˢ_refl, length, arith, set, length-set, set-get_or, inl, inr, Option-cases,
}
use shellinabox.HashMap.Effects.{Event, Returns}
use shellinabox.HashMap.Bucket.{Chain, find}
use shellinabox.HashMap.Bucket.Laws.{count, dropped, one_if_none, find-eq-none, count-eq-zero}
use shellinabox.HashMap.Bucket.Removal.{
  swap_remove, delete_chain-absent, delete_chain-present, swap_remove-count, swap_remove-find,
  swap_remove-length,
}
use shellinabox.HashMap.Table.{chain_of, view, total, IsPlaced, total-set, set-IsPlaced, set-view}
use shellinabox.HashMap.{HashMap, index, delete_from_hash_map, get_ref_from_hash_map}

module _ {ℓ} {V : Type ℓ} where
  view_at :
      (es : List (Chain V)) (key : Bytes)
      → (if length es == 0 then none else find key (chain_of es key)) ≡ view es key
  unfolding view find
  view_at [] key = refl
  view_at (c ∷ es) key = ground arith

  view-pos : (es : List (Chain V)) (key : Bytes) {w : V} → view es key ≡ some w → 0 < length es
  unfolding view find
  view-pos [] key h = cc
  view-pos (c ∷ es) key h = omega arith

  -- What `getRefFromHashMap` points to is what the table holds at the key.
  pub get_ref_from_hash_map-view :
      (m : HashMap V) (key : Bytes) → get_ref_from_hash_map m key ≡ view m.entries key
  unfolding get_ref_from_hash_map
  get_ref_from_hash_map-view m key = view_at m.entries key

  -- The table `r` is `m` without `key`, and `events` hands the old value to the destructor.
  pub record Deletes (m : HashMap V) (key : Bytes) (r : HashMap V) (events : List (Event V))
      : Type ℓ where
    pub placed : IsPlaced r.entries
    pub reads : (q : Bytes) → view r.entries q ≡ (if key ==ˢ q then none else view m.entries q)
    pub size : total r.entries + 1 ≡ total m.entries + one_if_none (view m.entries key)
    pub counted : r.num_entries + 1 ≡ m.num_entries + one_if_none (view m.entries key)
    pub sized : length r.entries ≡ length m.entries
    pub kept : r.destructor ≡ m.destructor
    pub dropping : events ≡ dropped m.destructor key (view m.entries key)

  module _ (m : HashMap V) (key : Bytes) (placed : IsPlaced m.entries) where
    absent-Deletes : view m.entries key ≡ none → Deletes m key m []
    absent-Deletes h = record {
      placed = placed;
      reads = λ q. ground (arith, ==ˢ_iff key q);
      size = ground arith;
      counted = ground arith;
      sized = refl;
      kept = refl;
      dropping = rw h;
    }

    module _ (pos : 0 < length m.entries) where
      shorter : List (Chain V)
      shorter =
          set m.entries (index key (length m.entries)) (swap_remove key (chain_of m.entries key))

      module _ (w : V) (held : view m.entries key ≡ some w) where
        one : count key (chain_of m.entries key) ≡ 1
        unfolding view
        one = ground (
          arith,
          find-eq-none key (chain_of m.entries key),
          placed key (index key (length m.entries)),
        )

        shorter-total : total shorter + 1 ≡ total m.entries
        unfolding shorter
        shorter-total =
            let c = chain_of m.entries key in
            omega (
              arith,
              total-set m.entries (index key (length m.entries)) (swap_remove key c) (omega arith),
              swap_remove-length key c one,
            )

        present-Deletes :
            (n : ℕ)
            → m.num_entries ≡ suc n
            → Deletes m key
                (record m { entries = shorter; num_entries = n })
                (dropped m.destructor key (view m.entries key))
        unfolding shorter
        present-Deletes n e =
            let c = chain_of m.entries key in
            let i = index key (length m.entries) in
            record {
              placed =
                  set-IsPlaced m.entries pos placed key (swap_remove key c)
                    (rw (swap_remove-count key key c (omega (arith, one)), ==ˢ_refl) (omega arith))
                    (λ q other. rw (swap_remove-count key q c (omega (arith, one)), other));
              reads = λ q.
                  set-view m.entries pos placed key (swap_remove key c) q (λ other.
                    rw (swap_remove-find key q c (omega (arith, one)) (placed q i).0, other))
                  ∙ rw (
                    swap_remove-find key key c (omega (arith, one)) (omega (arith, one)),
                    ==ˢ_refl,
                  );
              size = ground (arith, held, shorter-total);
              counted = ground (arith, held, e);
              sized = length-set m.entries i (swap_remove key c);
              kept = refl;
              dropping = refl;
            }

  -- `deleteFromHashMap` on a table whose count covers its entries does not abort: the table is then
  -- unchanged but for `key`, which is gone, and an old value has been handed to the destructor.
  pub delete_from_hash_map-Deletes :
      (m : HashMap V) (key : Bytes)
      → IsPlaced m.entries
      → total m.entries ≤ m.num_entries
      → Returns (delete_from_hash_map m key) (Deletes m key)
  unfolding delete_from_hash_map view shorter
  delete_from_hash_map-Deletes m key placed covered =
      let c = chain_of m.entries key in
      let i = index key (length m.entries) in
      elim (Option-cases (view m.entries key)) [
        | inl gone ↦ (
          m,
          [],
          ground (
            arith,
            delete_chain-absent m.destructor key (length c) c m.num_entries
                (count-eq-zero key c gone),
            set-get_or m.entries i [],
          ),
          absent-Deletes m key placed gone,
        )
        | inr (w, held) ↦
            let pos : 0 < length m.entries = view-pos m.entries key held in
            let filled : m.num_entries ≡ suc (m.num_entries - 1) =
              omega (arith, shorter-total m key placed pos w held) in
            (
              record m { entries = shorter m key placed pos; num_entries = m.num_entries - 1 },
              dropped m.destructor key (view m.entries key),
              ground (
                arith,
                view-pos m.entries key held,
                rw (← filled) at (
                    delete_chain-present m.destructor key (length c) c (m.num_entries - 1)
                      (one m key placed pos w held) (omega arith)),
              ),
              present-Deletes m key placed pos w held (m.num_entries - 1) filled,
            )
      ]
