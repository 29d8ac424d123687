-- ===== src/HashMap/Flat.antt =====
-- All entries of the table in one list, in the order in which a growing table moves them.
use shellinabox.Base.{
  ℕ, zero, suc, ◌≤◌, ◌≡◌, ◌≢◌, refl, List, [], ◌∷◌, ◌++◌, Bytes, length, arith, length-append,
  get_or,
}
use shellinabox.HashMap.Bucket.{Chain, find}
use shellinabox.HashMap.Bucket.Laws.{count, find-eq-none}
use shellinabox.HashMap.Bucket.Removal.{find-append, count-append}
use shellinabox.HashMap.Table.{view, total, IsPlaced}
use shellinabox.HashMap.{index}
use mathlib.Core.Option.{or_else}

module _ {ℓ} {V : Type ℓ} where
  unfoldable pub flat : List (Chain V) → Chain V
  flat [] = []
  flat (c ∷ es) = c ++ flat es

  pub length-flat : (es : List (Chain V)) → length (flat es) ≡ total es
  unfolding flat total
  length-flat [] = refl
  length-flat (c ∷ es) = omega (arith, length-append c (flat es), length-flat es)

  flat-count_none :
      (q : Bytes) (es : List (Chain V))
      → ((i : ℕ) → count q (get_or es i []) ≡ 0)
      → count q (flat es) ≡ 0
  unfolding flat
  flat-count_none q [] h = h 0
  flat-count_none q (c ∷ es) h =
      omega (arith, count-append q c (flat es), h 0, flat-count_none q es (λ i. h (suc i)))

  flat-count_one :
      (q : Bytes) (es : List (Chain V)) (j : ℕ)
      → ((i : ℕ) → i ≢ j → count q (get_or es i []) ≡ 0)
      → count q (flat es) ≡ count q (get_or es j [])
  unfolding flat
  flat-count_one q [] j h = refl
  flat-count_one q (c ∷ es) zero h =
      omega (arith, count-append q c (flat es), flat-count_none q es (λ i. h (suc i) (omega arith)))
  flat-count_one q (c ∷ es) (suc j) h = omega (
    arith,
    count-append q c (flat es),
    h 0 (omega arith),
    flat-count_one q es j (λ i ne. h (suc i) (omega arith)),
  )

  flat-find_one :
      (q : Bytes) (es : List (Chain V)) (j : ℕ)
      → ((i : ℕ) → i ≢ j → count q (get_or es i []) ≡ 0)
      → find q (flat es) ≡ find q (get_or es j [])
  unfolding flat or_else
  flat-find_one q [] j h = refl
  flat-find_one q (c ∷ es) zero h = ground (
    arith,
    find-append q c (flat es),
    find-eq-none q (flat es),
    flat-count_none q es (λ i. h (suc i) (omega arith)),
  )
  flat-find_one q (c ∷ es) (suc j) h = ground (
    arith,
    find-append q c (flat es),
    find-eq-none q c (h 0 (omega arith)),
    flat-find_one q es j (λ i ne. h (suc i) (omega arith)),
  )

  module _ (es : List (Chain V)) (placed : IsPlaced es) (q : Bytes) where
    pub flat-view : find q (flat es) ≡ view es q
    unfolding view
    flat-view = flat-find_one q es (index q (length es)) (λ i ne. (placed q i).1 ne)

    pub flat-count : count q (flat es) ≤ 1
    flat-count = omega (
      arith,
      flat-count_one q es (index q (length es)) (λ i ne. (placed q i).1 ne),
      placed q (index q (length es)),
    )
