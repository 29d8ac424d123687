-- ===== src/HashMap/Bucket/Removal.antt =====
-- The scan of `deleteFromHashMap` over a bucket with distinct keys: it takes one entry out and
-- puts the last one in its place.
use shellinabox.Base.{
  ℕ, zero, suc, ◌+◌, ◌-◌, ◌≤◌, ◌≡◌, refl, ap, none, some, [], ◌∷◌, ◌++◌, if◌then◌else◌, Bytes,
  ◌==ˢ◌, ==ˢ_iff, length, arith,
}
use mathlib.Core.List.{append-nil}
use mathlib.Core.Option.{or_else}
use shellinabox.HashMap.Effects.{Destructor, release}
use shellinabox.HashMap.Bucket.{Chain, find, last_of, init_of, delete_chain}
use shellinabox.HashMap.Bucket.Laws.{count, dropped, find-eq-none}

module _ {ℓ} {V : Type ℓ} where
  -- The bucket without the first entry at `key`, with the last entry in its place.
  unfoldable pub swap_remove : Bytes → Chain V → Chain V
  swap_remove key [] = []
  swap_remove key ((k, v) ∷ []) = if k ==ˢ key then [] else (k, v) ∷ []
  swap_remove key ((k, v) ∷ e ∷ c) =
      if k ==ˢ key then last_of e c ∷ init_of e c else (k, v) ∷ swap_remove key (e ∷ c)

  pub init_of-append-last_of :
      (e : Bytes × V) (c : Chain V) → init_of e c ++ (last_of e c ∷ []) ≡ e ∷ c
  unfolding init_of last_of
  init_of-append-last_of e [] = refl
  init_of-append-last_of e (e' ∷ c) = ap (◌∷◌ e) (init_of-append-last_of e' c)

  pub find-append : (q : Bytes) (a b : Chain V) → find q (a ++ b) ≡ or_else (find q a) (find q b)
  unfolding find or_else
  find-append q [] b = refl
  find-append q ((k, v) ∷ a) b = ground (arith, find-append q a b)

  pub count-append : (q : Bytes) (a b : Chain V) → count q (a ++ b) ≡ count q a + count q b
  unfolding count
  count-append q [] b = omega arith
  count-append q ((k, v) ∷ a) b = ground (arith, count-append q a b)

  -- Moving the last entry to the front changes no lookup of a key that occurs once at most.
  rotated-count :
      (q : Bytes) (e : Bytes × V) (c : Chain V)
      → count q (last_of e c ∷ init_of e c) ≡ count q (e ∷ c)
  unfolding count
  rotated-count q e c =
      ground (
        arith,
        rw (init_of-append-last_of e c) at (count-append q (init_of e c) (last_of e c ∷ [])),
      )

  rotated-find :
      (q : Bytes) (e : Bytes × V) (c : Chain V)
      → count q (e ∷ c) ≤ 1
      → find q (last_of e c ∷ init_of e c) ≡ find q (e ∷ c)
  unfolding or_else find count
  rotated-find q e c h = ground (
    arith,
    rw (init_of-append-last_of e c) at (find-append q (init_of e c) (last_of e c ∷ [])),
    rw (init_of-append-last_of e c) at (count-append q (init_of e c) (last_of e c ∷ [])),
    find-eq-none q (init_of e c),
  )

  pub rotated-length : (e : Bytes × V) (c : Chain V) → length (init_of e c) ≡ length c
  unfolding init_of
  rotated-length e [] = refl
  rotated-length e (e' ∷ c) = ap suc (rotated-length e' c)

  pub delete_chain-absent :
      (d : Destructor) (key : Bytes) (rounds : ℕ) (c : Chain V) (n : ℕ)
      → count key c ≡ 0
      → delete_chain rounds d key c n ≡ some ((c, n), [])
  unfolding delete_chain count
  delete_chain-absent d key zero c n h = refl
  delete_chain-absent d key (suc rounds) [] n h = refl
  delete_chain-absent d key (suc rounds) ((k, v) ∷ []) n h = ground arith
  delete_chain-absent d key (suc rounds) ((k, v) ∷ e ∷ c) n h =
      ground (arith, delete_chain-absent d key rounds (e ∷ c) n)

  -- The scan finds the one entry at `key`, hands it to the destructor and counts it out.
  pub delete_chain-present :
      (d : Destructor) (key : Bytes) (rounds : ℕ) (c : Chain V) (n : ℕ)
      → count key c ≡ 1
      → length c ≤ rounds
      → delete_chain rounds d key c (suc n)
        ≡ some ((swap_remove key c, n), dropped d key (find key c))
  unfolding delete_chain swap_remove count find
  delete_chain-present d key zero [] n h l = absurd (omega arith)
  delete_chain-present d key zero (e ∷ c) n h l = absurd (omega arith)
  delete_chain-present d key (suc rounds) [] n h l = absurd (omega arith)
  delete_chain-present d key (suc rounds) ((k, v) ∷ []) n h l = ground (arith, ==ˢ_iff k key)
  delete_chain-present d key (suc rounds) ((k, v) ∷ e ∷ c) n h l = ground (
    arith,
    ==ˢ_iff k key,
    delete_chain-absent d key rounds (init_of e c) (suc n - 1),
    append-nil (release d k v),
    rotated-count key e c,
    delete_chain-present d key rounds (e ∷ c) n,
  )

  pub swap_remove-count :
      (key q : Bytes) (c : Chain V)
      → count key c ≤ 1
      → count q (swap_remove key c) ≡ (if key ==ˢ q then 0 else count q c)
  unfolding swap_remove count
  swap_remove-count key q [] h = ground arith
  swap_remove-count key q ((k, v) ∷ []) h = ground (arith, ==ˢ_iff k key, ==ˢ_iff key q)
  swap_remove-count key q ((k, v) ∷ e ∷ c) h = ground (
    arith,
    ==ˢ_iff k key,
    ==ˢ_iff key q,
    ==ˢ_iff k q,
    rotated-count q e c,
    swap_remove-count key q (e ∷ c),
  )

  pub swap_remove-find :
      (key q : Bytes) (c : Chain V)
      → count key c ≤ 1
      → count q c ≤ 1
      → find q (swap_remove key c) ≡ (if key ==ˢ q then none else find q c)
  unfolding swap_remove count find
  swap_remove-find key q [] h hq = ground arith
  swap_remove-find key q ((k, v) ∷ []) h hq = ground (arith, ==ˢ_iff k key, ==ˢ_iff key q)
  swap_remove-find key q ((k, v) ∷ e ∷ c) h hq = ground (
    arith,
    ==ˢ_iff k key,
    ==ˢ_iff key q,
    ==ˢ_iff k q,
    rotated-find q e c,
    find-eq-none q (e ∷ c),
    swap_remove-find key q (e ∷ c),
  )

  pub swap_remove-length :
      (key : Bytes) (c : Chain V) → count key c ≡ 1 → suc (length (swap_remove key c)) ≡ length c
  unfolding swap_remove count
  swap_remove-length key [] h = absurd (omega arith)
  swap_remove-length key ((k, v) ∷ []) h = ground arith
  swap_remove-length key ((k, v) ∷ e ∷ c) h =
      ground (arith, rotated-length e c, swap_remove-length key (e ∷ c))
