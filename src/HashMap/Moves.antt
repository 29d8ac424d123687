-- ===== src/HashMap/Moves.antt =====
-- The loops of a growth: all entries move to a table that has room for them, by calls of
-- `addToHashMap` itself that do not grow it again.
use shellinabox.Base.{
  ℕ, ◌+◌, ◌*◌, ◌/◌, ◌^◌, ◌≤◌, ◌<◌, ◌≡◌, refl, ap, ◌∙◌, none, some, List, [], ◌∷◌, ◌++◌, Bytes,
  ==ˢ_iff, ==ˢ_refl, length, arith, inl, inr, Option-cases,
}
use mathlib.Core.Option.{or_else}
use mathlib.Core.List.{append_assoc}
use mathlib.Core.Path.{fun_ext}
use shellinabox.HashMap.Effects.{Event, Run, ◌>>=◌, log, Returns}
use shellinabox.HashMap.Bucket.{Chain, find}
use shellinabox.HashMap.Bucket.Laws.{count}
use shellinabox.HashMap.Table.{view, total, IsPlaced}
use shellinabox.HashMap.Flat.{flat}
use shellinabox.HashMap.Add.{AddsTo}
use shellinabox.HashMap.{HashMap, move_chain, move_all}

abbrev pub Adder {ℓ} : Type ℓ → Type ℓ
Adder V = HashMap V → Bytes → V → Run V (HashMap V)

module _ {ℓ} {V : Type ℓ} where
  log-log : {A : Type ℓ} (e e' : List (Event V)) (r : Run V A) → log (e ++ e') r ≡ log e (log e' r)
  log-log e e' none = refl
  log-log e e' (some (a, later)) = ap (λ l. some (a, l)) (append_assoc e e' later)

  log->>= :
      {A B : Type ℓ} (e : List (Event V)) (r : Run V A) (g : A → Run V B)
      → log e r >>= g ≡ log e (r >>= g)
  log->>= e none g = refl
  log->>= e (some (a, e')) g = log-log e e' (g a)

  bind_assoc :
      {A B C : Type ℓ} (r : Run V A) (f : A → Run V B) (g : B → Run V C)
      → r >>= f >>= g ≡ r >>= (λ a. f a >>= g)
  bind_assoc none f g = refl
  bind_assoc (some (a, e)) f g = log->>= e (f a) g

  move_chain-append :
      (add : Adder V) (a b : Chain V) (m : HashMap V)
      → move_chain add (a ++ b) m ≡ move_chain add a m >>= move_chain add b
  unfolding move_chain
  move_chain-append add [] b m = elim (Option-cases (move_chain add b m)) [
    | inl e ↦ rw e
    | inr (a, e) ↦ rw e
  ]
  move_chain-append add ((k, v) ∷ a) b m = simp (bind_assoc, move_chain-append add a b)

  -- The two nested loops are one loop over all entries.
  pub move_all-flat :
      (add : Adder V) (es : List (Chain V)) (m : HashMap V)
      → move_all add es m ≡ move_chain add (flat es) m
  unfolding move_all flat
  move_all-flat add [] m = unfold move_chain in refl
  move_all-flat add (c ∷ es) m = rw (move_chain-append, ← fun_ext (move_all-flat add es))

  -- `r` is `m` with all of `c`, whose keys are new; nothing is dropped.
  pub record Moves (m : HashMap V) (c : Chain V) (r : HashMap V) (events : List (Event V))
      : Type ℓ where
    pub placed : IsPlaced r.entries
    pub reads : (q : Bytes) → view r.entries q ≡ or_else (view m.entries q) (find q c)
    pub size : total r.entries ≡ total m.entries + length c
    pub sized : length r.entries ≡ length m.entries
    pub counted : r.num_entries ≡ m.num_entries + length c
    pub quiet : events ≡ []

  -- The table can take one more entry without growing, and no size overflows.
  abbrev pub Spare : ℕ → HashMap V → Type 0
  Spare more m = (m.num_entries + more ≤ length m.entries * 8 / 10) × (length m.entries < 2 ^ 28)

  -- `add` is right on all tables that need not grow.
  abbrev pub AddsSpare : Adder V → Type ℓ
  AddsSpare add =
      (m : HashMap V) (key : Bytes) (value : V)
      → IsPlaced m.entries
      → Spare 1 m
      → Returns (add m key value) (AddsTo (length m.entries) m.num_entries m key value)

  module _ (add : Adder V) where
    pub move_chain-Moves :
        (c : Chain V) (m : HashMap V)
        → (0 < length c → AddsSpare add)
        → IsPlaced m.entries
        → Spare (length c) m
        → ((q : Bytes) → count q c ≤ 1)
        → ((q : Bytes) → 0 < count q c → view m.entries q ≡ none)
        → Returns (move_chain add c m) (Moves m c)
    unfolding move_chain or_else find count
    move_chain-Moves [] m adds placed room once apart = (
      m,
      [],
      refl,
      record {
        placed = placed;
        reads = λ q. ground arith;
        size = omega arith;
        sized = refl;
        counted = omega arith;
        quiet = refl;
      },
    )
    move_chain-Moves ((k, v) ∷ c) m adds placed room once apart =
        let (m', e, run, a) = adds (omega arith) m k v placed (omega arith) in
        let fresh = apart k (ground (arith, ==ˢ_refl k)) in
        let one : m'.num_entries ≡ m.num_entries + 1 = ground (arith, a.counted, fresh) in
        let (r, e', run', t) =
          move_chain-Moves c m' (λ h. adds (omega arith)) a.placed
            (omega (arith, one, room, a.sized)) (λ q. ground (arith, once q))
            (λ q h. ground (arith, a.reads q, once q, apart q, ==ˢ_iff k q)) in
        (
          r,
          [],
          ground (arith, run, run', a.dropping, t.quiet),
          record {
            placed = t.placed;
            reads = λ q. ground (arith, t.reads q, a.reads q, ==ˢ_iff k q);
            size = ground (arith, t.size, a.size);
            sized = t.sized ∙ a.sized;
            counted = omega (arith, t.counted, one);
            quiet = refl;
          },
        )
