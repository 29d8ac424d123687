-- ===== src/HashMap/Table.antt =====
-- The array of buckets: which bucket holds a key, and what a write to one bucket changes.
use shellinabox.Base.{
  ℕ, zero, suc, ◌+◌, ◌≤◌, ◌<◌, ◌≡◌, ◌≢◌, refl, ap, false, Option, none, List, [], ◌∷◌,
  if◌then◌else◌, Bytes, ◌==ˢ◌, ==ˢ_iff, length, arith, get_or, set, replicate, length-set,
  get_or-replicate, get_or-set_self, get_or-set_ne, inl, inr, Bool-cases,
}
use native.Mathlib.Decide.{ℕ_discrete}
use shellinabox.HashMap.Bucket.{Chain, find}
use shellinabox.HashMap.Bucket.Laws.{count}
use shellinabox.HashMap.{index}

module _ {ℓ} {V : Type ℓ} where
  -- The bucket of a key.
  abbrev pub chain_of : List (Chain V) → Bytes → Chain V
  chain_of es q = get_or es (index q (length es)) []

  -- What the table holds at a key.
  unfoldable pub view : List (Chain V) → Bytes → Option V
  view es q = find q (chain_of es q)

  -- The number of entries in all buckets.
  unfoldable pub total : List (Chain V) → ℕ
  total [] = 0
  total (c ∷ es) = length c + total es

  -- Every key stands in its own bucket only, and once at most.
  abbrev pub IsPlaced : List (Chain V) → Type 0
  IsPlaced es =
      (q : Bytes) (i : ℕ)
      → (count q (get_or es i []) ≤ 1) × (i ≢ index q (length es) → count q (get_or es i []) ≡ 0)

  pub total-set :
      (es : List (Chain V)) (i : ℕ) (c : Chain V)
      → i < length es
      → total (set es i c) + length (get_or es i []) ≡ total es + length c
  unfolding total
  total-set [] i c h = absurd (omega arith)
  total-set (x ∷ es) zero c h = omega arith
  total-set (x ∷ es) (suc i) c h = omega (arith, total-set es i c (omega arith))

  -- A bucket `c'` in place of the bucket of `key`, with the same entries at all other keys.
  module _ (es : List (Chain V)) (pos : 0 < length es) (placed : IsPlaced es) (key : Bytes)
      (c' : Chain V) where
    here-lt : index key (length es) < length es
    here-lt = omega arith

    pub set-IsPlaced :
        count key c' ≤ 1
        → ((q : Bytes) → (key ==ˢ q) ≡ false → count q c' ≡ count q (chain_of es key))
        → IsPlaced (set es (index key (length es)) c')
    set-IsPlaced one others q i = ground (
      arith,
      ==ˢ_iff key q,
      length-set es (index key (length es)) c',
      here-lt,
      placed q i,
      placed q (index key (length es)),
      others q,
      get_or-set_self es (index key (length es)) c' [],
      get_or-set_ne es (index key (length es)) i c' [],
    )

    pub set-view :
        (q : Bytes)
        → ((key ==ˢ q) ≡ false → find q c' ≡ find q (chain_of es key))
        → view (set es (index key (length es)) c') q
          ≡ (if key ==ˢ q then find key c' else view es q)
    unfolding view
    set-view q others = elim (Bool-cases (key ==ˢ q)) [
      | inl same ↦
          let e = (==ˢ_iff key q).0 same in
          rw (same, ← e, length-set) (rw (get_or-set_self es _ c' [] here-lt))
      | inr other ↦
          rw (other, length-set)
            (elim (ℕ_discrete (index key (length es)) (index q (length es))) [
              | yes e ↦ rw (← e) (rw (get_or-set_self es _ c' [] here-lt) (others other))
              | no ne ↦ ap (find q) (get_or-set_ne es _ _ c' [] ne)
            ])
    ]

module _ {ℓ} (V : Type ℓ) where
  pub total-replicate : (n : ℕ) → total {V = V} (replicate n []) ≡ 0
  unfolding total replicate
  total-replicate zero = refl
  total-replicate (suc n) = omega (arith, total-replicate n)

  pub replicate-IsPlaced : (n : ℕ) → IsPlaced {V = V} (replicate n [])
  unfolding count
  replicate-IsPlaced n q i =
      (rw (get_or-replicate n i) (omega arith), λ _. rw (get_or-replicate n i))

  pub view-replicate : (n : ℕ) (q : Bytes) → view {V = V} (replicate n []) q ≡ none
  unfolding view find
  view-replicate n q = rw get_or-replicate
