-- ===== src/HashMap/Bucket/Laws.antt =====
-- What the scans of one bucket do to its lookups, its size and its keys.
use shellinabox.Base.{
  ℕ, ◌+◌, ◌≤◌, ◌≡◌, refl, Bool, true, false, Option, none, some, List, [], ◌∷◌, if◌then◌else◌,
  Bytes, ◌==ˢ◌, ==ˢ_iff, length, arith,
}
use shellinabox.HashMap.Effects.{Destructor, Event, release}
use shellinabox.HashMap.Bucket.{Chain, find, put_chain}

module _ {ℓ} {V : Type ℓ} where
  -- How many entries of the bucket have this key.
  unfoldable pub count : Bytes → Chain V → ℕ
  count q [] = 0
  count q ((k, v) ∷ c) = (if k ==ˢ q then 1 else 0) + count q c

  -- The destructor's calls when the value at `key`, if any, is dropped.
  abbrev pub dropped : Destructor → Bytes → Option V → List (Event V)
  dropped d key none = []
  dropped d key (some w) = release d key w

  abbrev pub one_if_none : Option V → ℕ
  one_if_none none = 1
  one_if_none (some w) = 0

  abbrev pub is_none : Option V → Bool
  is_none none = true
  is_none (some w) = false

  pub find-eq-none : (q : Bytes) (c : Chain V) → count q c ≡ 0 → find q c ≡ none
  unfolding find count
  find-eq-none q [] h = refl
  find-eq-none q ((k, v) ∷ c) h = ground (arith, find-eq-none q c)

  pub count-eq-zero : (q : Bytes) (c : Chain V) → find q c ≡ none → count q c ≡ 0
  unfolding find count
  count-eq-zero q [] h = refl
  count-eq-zero q ((k, v) ∷ c) h = ground (arith, count-eq-zero q c)

  pub count-le-length : (q : Bytes) (c : Chain V) → count q c ≤ length c
  unfolding count
  count-le-length q [] = omega arith
  count-le-length q ((k, v) ∷ c) = ground (arith, count-le-length q c)

  module _ (d : Destructor) (k : Bytes) (v : V) where
    pub put_chain-find :
        (q : Bytes) (c : Chain V)
        → find q (put_chain d k v c).chain ≡ (if k ==ˢ q then some v else find q c)
    unfolding find put_chain
    put_chain-find q [] = refl
    put_chain-find q ((j, w) ∷ c) =
        ground (arith, put_chain-find q c, ==ˢ_iff k q, ==ˢ_iff j k, ==ˢ_iff j q)

    pub put_chain-count :
        (q : Bytes) (c : Chain V)
        → count q (put_chain d k v c).chain
          ≡ count q c + (if k ==ˢ q then one_if_none (find q c) else 0)
    unfolding find put_chain count
    put_chain-count q [] = ground arith
    put_chain-count q ((j, w) ∷ c) =
        ground (arith, put_chain-count q c, ==ˢ_iff k q, ==ˢ_iff j k, ==ˢ_iff j q)

    pub put_chain-length :
        (c : Chain V) → length (put_chain d k v c).chain ≡ length c + one_if_none (find k c)
    unfolding find put_chain
    put_chain-length [] = omega arith
    put_chain-length ((j, w) ∷ c) = ground (arith, put_chain-length c)

    pub put_chain-added : (c : Chain V) → (put_chain d k v c).added ≡ is_none (find k c)
    unfolding find put_chain
    put_chain-added [] = refl
    put_chain-added ((j, w) ∷ c) = ground (arith, put_chain-added c)

    pub put_chain-events : (c : Chain V) → (put_chain d k v c).events ≡ dropped d k (find k c)
    unfolding find put_chain
    put_chain-events [] = refl
    put_chain-events ((j, w) ∷ c) = ground (arith, put_chain-events c, ==ˢ_iff j k)
