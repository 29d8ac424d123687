-- ===== src/HashMap/Refines.antt =====
-- The table as a map from strings: any sequence of calls from `initHashMap` on.
use mathlib.Core.Path.{subst}
use shellinabox.Base.{
  ℕ, suc, ◌+◌, ◌-◌, ◌*◌, ◌/◌, sym, length, inl, inr, Bool-cases, ◌≤◌, ◌≡◌, ◌≢◌, refl, ◌∙◌, Option,
  none, some, List, [], ◌∷◌, ◌++◌, if◌then◌else◌, Bytes, ◌==ˢ◌, arith, All, All-append,
}
use shellinabox.HashMap.Effects.{
  Destructor, absent, present, indeterminate, Event, destroyed, indeterminate_read, release, Run,
  ◌>>=◌, Returns, return,
}
use shellinabox.HashMap.Bucket.Laws.{count, dropped, one_if_none}
use shellinabox.HashMap.Table.{view, total, IsPlaced}
use shellinabox.HashMap.Stages.{
  IsStaged, most_keys, IsStaged-shift, IsStaged-grow, IsStaged-room, IsStaged-bounds,
}
use shellinabox.HashMap.Add.{Adds, size_after, count_after}
use shellinabox.HashMap.Growth.{HasRoom, add_to_hash_map-Adds}
use shellinabox.HashMap.Delete.{Deletes, delete_from_hash_map-Deletes, get_ref_from_hash_map-view}
use shellinabox.HashMap.{
  HashMap, is_full, init_hash_map, add_to_hash_map, delete_from_hash_map, get_ref_from_hash_map,
}

pub data Call {ℓ} (V : Type ℓ) : Type ℓ where
  add : Bytes → V → Call V
  delete : Bytes → Call V

module _ {ℓ} {V : Type ℓ} where
  -- One call; the count of entries bounds the depth of the growth.
  unfoldable pub call : HashMap V → Call V → Run V (HashMap V)
  call m (add key value) = add_to_hash_map (suc m.num_entries) m key value
  call m (delete key) = delete_from_hash_map m key

  unfoldable pub calls : HashMap V → List (Call V) → Run V (HashMap V)
  unfolding call
  calls m [] = return m
  calls m (o ∷ os) = call m o >>= λ m'. calls m' os

  -- The map that the calls describe.
  unfoldable pub spec_call : (Bytes → Option V) → Call V → Bytes → Option V
  spec_call f (add key value) q = if key ==ˢ q then some value else f q
  spec_call f (delete key) q = if key ==ˢ q then none else f q

  unfoldable pub spec_calls : (Bytes → Option V) → List (Call V) → Bytes → Option V
  unfolding spec_call
  spec_calls f [] = f
  spec_calls f (o ∷ os) = spec_calls (spec_call f o) os

  -- The keys stand in their buckets, and size and count are those of a table that has grown from none.
  pub record IsValid (m : HashMap V) : Type ℓ where
    pub placed : IsPlaced m.entries
    pub staged : IsStaged (length m.entries) m.num_entries (total m.entries)
    pub determinate : m.destructor ≢ indeterminate

  -- The event is a call of a destructor that somebody has set.
  abbrev pub IsDeterminate : Event V → Type 0
  IsDeterminate (destroyed key value) = Unit
  IsDeterminate indeterminate_read = ⊥

  dropped-All :
      (d : Destructor) (key : Bytes) (o : Option V)
      → d ≢ indeterminate
      → All IsDeterminate (dropped d key o)
  unfolding release
  dropped-All d key none h = tt
  dropped-All absent key (some w) h = tt
  dropped-All present key (some w) h = (tt, tt)
  dropped-All indeterminate key (some w) h = absurd (h refl)

  pub init_hash_map-IsValid : (d : Destructor) → d ≢ indeterminate → IsValid (init_hash_map d)
  unfolding init_hash_map total count
  init_hash_map-IsValid d h = record {
    placed = λ q i. (omega arith, λ _. refl);
    staged = inl (omega arith);
    determinate = h;
  }

  abbrev pub Models : (Bytes → Option V) → HashMap V → List (Event V) → Type ℓ
  Models f m events =
      IsValid m × ((q : Bytes) → get_ref_from_hash_map m q ≡ f q) × All IsDeterminate events

  -- `addToHashMap` is only called while the map that the calls describe has at most `limit` keys; it
  -- is `f` with `n` keys at first.
  abbrev pub Fits : ℕ → (Bytes → Option V) → ℕ → List (Call V) → Type 0
  Fits limit f n [] = Unit
  Fits limit f n (add key value ∷ os) =
      (n ≤ limit) × Fits limit (spec_call f (add key value)) (n + one_if_none (f key)) os
  Fits limit f n (delete key ∷ os) =
      Fits limit (spec_call f (delete key)) (n + one_if_none (f key) - 1) os

  one_if_none-le : (o : Option V) → one_if_none o ≤ 1
  one_if_none-le none = omega arith
  one_if_none-le (some w) = omega arith

  staged-HasRoom :
      (m : HashMap V)
      → IsStaged (length m.entries) m.num_entries (total m.entries)
      → total m.entries ≤ most_keys
      → HasRoom m
  unfolding is_full
  staged-HasRoom m h fits = record {
    small = omega (arith, IsStaged-bounds _ _ _ h);
    room = λ full. IsStaged-room _ _ _ h fits (ground (arith, full));
  }

  added-IsStaged :
      (m r : HashMap V) (key : Bytes) (value : V) (e : List (Event V))
      → IsStaged (length m.entries) m.num_entries (total m.entries)
      → total m.entries ≤ most_keys
      → Adds m key value r e
      → IsStaged (length r.entries) r.num_entries (total r.entries)
  unfolding size_after count_after is_full
  added-IsStaged m r key value e h fits a =
      let o : ℕ = one_if_none (view m.entries key) in
      let one = one_if_none-le (view m.entries key) in
      elim (Bool-cases (is_full m)) [
        | inl full ↦ ground (
          arith,
          a.sized,
          a.counted,
          a.size,
          full,
          IsStaged-grow (length m.entries) m.num_entries (total m.entries) o h fits,
          one,
        )
        | inr spare ↦
            let same : length r.entries ≡ length m.entries = ground (arith, a.sized, spare) in
            let more : r.num_entries ≡ m.num_entries + o = ground (arith, a.counted, spare) in
            let room : m.num_entries + 1 ≤ length m.entries * 8 / 10 = ground (arith, spare) in
            subst (λ s. IsStaged s r.num_entries (total r.entries)) (sym same)
              (IsStaged-shift _ _ _ r.num_entries (total r.entries) h (omega (arith, more, a.size))
                (omega (arith, more, room, one)))
      ]

  pub add-Models :
      (m : HashMap V) (f : Bytes → Option V) (key : Bytes) (value : V)
      → IsValid m
      → ((q : Bytes) → get_ref_from_hash_map m q ≡ f q)
      → total m.entries ≤ most_keys
      → Returns (call m (add key value)) λ r events.
        Models (spec_call f (add key value)) r events
        × (total r.entries ≡ total m.entries + one_if_none (f key))
  unfolding call spec_call
  add-Models m f key value valid h fits =
      let (r, e, run, a) =
        add_to_hash_map-Adds (suc m.num_entries) m key value valid.placed
          (omega (arith, IsStaged-bounds _ _ _ valid.staged))
          (staged-HasRoom m valid.staged fits) in
      (
        r,
        e,
        run,
        (
          (
            record {
              placed = a.placed;
              staged = added-IsStaged m r key value e valid.staged fits a;
              determinate = rw a.kept valid.determinate;
            },
            λ q.
                get_ref_from_hash_map-view r q
                ∙ a.reads q
                ∙ rw (← h q, get_ref_from_hash_map-view m q),
            rw a.dropping (dropped-All m.destructor key _ valid.determinate),
          ),
          rw (← h key, get_ref_from_hash_map-view m key) a.size,
        ),
      )

  deleted-IsStaged :
      (m r : HashMap V) (key : Bytes) (e : List (Event V))
      → IsStaged (length m.entries) m.num_entries (total m.entries)
      → Deletes m key r e
      → IsStaged (length r.entries) r.num_entries (total r.entries)
  deleted-IsStaged m r key e h a =
      let b = IsStaged-bounds _ _ _ h in
      let one = one_if_none-le (view m.entries key) in
      subst (λ s. IsStaged s r.num_entries (total r.entries)) (sym a.sized)
        (IsStaged-shift _ _ _ r.num_entries (total r.entries) h (omega (arith, a.counted, a.size))
          (omega (arith, a.counted, b, one)))

  delete-Models :
      (m : HashMap V) (f : Bytes → Option V) (key : Bytes)
      → IsValid m
      → ((q : Bytes) → get_ref_from_hash_map m q ≡ f q)
      → Returns (call m (delete key)) λ r events.
        Models (spec_call f (delete key)) r events
        × (total r.entries ≡ total m.entries + one_if_none (f key) - 1)
  unfolding call spec_call
  delete-Models m f key valid h =
      let (r, e, run, a) =
        delete_from_hash_map-Deletes m key valid.placed
          (omega (arith, IsStaged-bounds _ _ _ valid.staged)) in
      (
        r,
        e,
        run,
        (
          (
            record {
              placed = a.placed;
              staged = deleted-IsStaged m r key e valid.staged a;
              determinate = rw a.kept valid.determinate;
            },
            λ q.
                get_ref_from_hash_map-view r q
                ∙ a.reads q
                ∙ rw (← h q, get_ref_from_hash_map-view m q),
            rw a.dropping (dropped-All m.destructor key _ valid.determinate),
          ),
          rw (← h key, get_ref_from_hash_map-view m key) (omega (arith, a.size)),
        ),
      )

  -- From a valid table, every sequence of calls returns, and lookups then read the map that the
  -- calls describe.
  pub calls-Models :
      (os : List (Call V)) (m : HashMap V) (f : Bytes → Option V)
      → IsValid m
      → ((q : Bytes) → get_ref_from_hash_map m q ≡ f q)
      → Fits most_keys f (total m.entries) os
      → Returns (calls m os) (Models (spec_calls f os))
  unfolding calls spec_calls
  calls-Models [] m f valid h fits = (m, [], refl, (valid, h, tt))
  calls-Models (add key value ∷ os) m f valid h fits =
      let (m', e, run, t) = add-Models m f key value valid h fits.0 in
      let (r, e', run', t') =
        calls-Models os m' (spec_call f (add key value)) t.0.0 t.0.1 (rw t.1 fits.1) in
      (
        r,
        e ++ e',
        ground (arith, run, run'),
        (t'.0, t'.1, All-append IsDeterminate e e' t.0.2 t'.2),
      )
  calls-Models (delete key ∷ os) m f valid h fits =
      let (m', e, run, t) = delete-Models m f key valid h in
      let (r, e', run', t') =
        calls-Models os m' (spec_call f (delete key)) t.0.0 t.0.1 (rw t.1 fits) in
      (
        r,
        e ++ e',
        ground (arith, run, run'),
        (t'.0, t'.1, All-append IsDeterminate e e' t.0.2 t'.2),
      )

  get_ref_from_hash_map-init :
      (d : Destructor) (q : Bytes) → get_ref_from_hash_map {V = V} (init_hash_map d) q ≡ none
  unfolding get_ref_from_hash_map init_hash_map
  get_ref_from_hash_map-init d q = refl

  -- After any sequence of `addToHashMap` and `deleteFromHashMap` on a table made with a destructor
  -- or with NULL, in which `addToHashMap` is only called while there are at most 818 keys, every call
  -- has returned, `getRefFromHashMap` reads the value last added at a key that was not deleted
  -- since, and nothing at other keys, and no growth has read the `destructor` of its `newMap`,
  -- which nobody writes.
  pub calls-refine_map :
      (d : Destructor) (os : List (Call V))
      → d ≢ indeterminate
      → Fits 818 (λ _. none) 0 os
      → Returns (calls (init_hash_map d) os) λ r events.
        ((q : Bytes) → get_ref_from_hash_map r q ≡ spec_calls (λ _. none) os q)
        × All IsDeterminate events
  unfolding init_hash_map total
  calls-refine_map d os ne fits =
      let (r, e, run, t) =
        calls-Models os (init_hash_map d) (λ _. none) (init_hash_map-IsValid d ne)
          (get_ref_from_hash_map-init d) fits in
      (r, e, run, (t.1, t.2))
