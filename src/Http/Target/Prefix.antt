-- ===== src/Http/Target/Prefix.antt =====
-- The longest prefix of a path that the trie of handlers knows.
use shellinabox.Base.{
  ℕ, suc, ◌≤◌, ◌≡◌, ◌≢◌, ap, Option, none, some, [], ◌∷◌, ◌++◌, Bytes, length, length-append, arith,
  inl, inr, Option-cases,
}
use mathlib.Core.Option.{or_else}
use shellinabox.Trie.Longest.{longest}

-- The longest prefix that a map knows, with what is behind it.
pub record IsLongest {V : Type 0} (f : Bytes → Option (Option V)) (key front rest : Bytes)
    (v : Option V) : Type 0 where
  pub parts : key ≡ front ++ rest
  pub known : f front ≡ some v
  pub most :
      (front' rest' : Bytes)
      → key ≡ front' ++ rest'
      → f front' ≢ none
      → length front' ≤ length front

module _ {V : Type 0} where
  -- Without a longest prefix, the map knows no prefix.
  longest-unknown :
      (f : Bytes → Option (Option V)) (key p q : Bytes)
      → longest f key ≡ none
      → key ≡ p ++ q
      → f p ≡ none
  unfolding longest or_else
  longest-unknown f [] [] q e k = elim (Option-cases (f [])) [
    | inl n ↦ n
    | inr (w, h) ↦ absurd (ground (arith, h, e))
  ]
  longest-unknown f [] (c ∷ p) q e k = absurd (ground (arith, k))
  longest-unknown f (c ∷ key) [] q e k = elim (Option-cases (longest (λ r. f (c ∷ r)) key)) [
    | inl n ↦ elim (Option-cases (f [])) [
      | inl m ↦ m
      | inr (w, h) ↦ absurd (ground (arith, n, h, e))
    ]
    | inr (w, h) ↦ absurd (ground (arith, h, e))
  ]
  longest-unknown f (c ∷ key) (d ∷ p) q e k =
      let same : c ≡ d = cc (k) in
      let inner : longest (λ r. f (c ∷ r)) key ≡ none =
        elim (Option-cases (longest (λ r. f (c ∷ r)) key)) [
          | inl n ↦ n
          | inr (w, h) ↦ absurd (ground (arith, h, e))
        ] in
      rw (← same) (longest-unknown (λ r. f (c ∷ r)) key p q inner (cc (k)))

  longer :
      (f : Bytes → Option (Option V)) (c : ℕ) (key front : Bytes)
      → ((p q : Bytes) → key ≡ p ++ q → f (c ∷ p) ≢ none → length p ≤ length front)
      → (p q : Bytes) → c ∷ key ≡ p ++ q
      → f p ≢ none
      → length p ≤ suc (length front)
  longer f c key front h [] q e n = omega arith
  longer f c key front h (d ∷ p) q e n =
      let same : c ≡ d = cc (e) in omega (arith, h p q (cc (e)) (λ k. n (rw (← same) k)))

  none-longer :
      (f : Bytes → Option (Option V)) (c : ℕ) (key : Bytes)
      → longest (λ r. f (c ∷ r)) key ≡ none
      → (p q : Bytes) → c ∷ key ≡ p ++ q
      → f p ≢ none
      → length p ≤ 0
  none-longer f c key h [] q e n = omega arith
  none-longer f c key h (d ∷ p) q e n =
      let same : c ≡ d = cc (e) in
      absurd (n (rw (← same) (longest-unknown (λ r. f (c ∷ r)) key p q h (cc (e)))))

  pub longest-IsLongest :
      (f : Bytes → Option (Option V)) (key rest : Bytes) (v : Option V)
      → longest f key ≡ some (v, rest)
      → (front : Bytes) × IsLongest f key front rest v
  unfolding longest or_else
  longest-IsLongest f [] rest v e = elim (Option-cases (f [])) [
    | inl n ↦ absurd (ground (arith, n, e))
    | inr (w, k) ↦ (
      [],
      record {
        parts = ground (arith, k, e);
        known = ground (arith, k, e);
        most = λ p q e' n. omega (arith, ap length e', length-append p q);
      },
    )
  ]
  longest-IsLongest f (c ∷ key) rest v e = elim (Option-cases (longest (λ r. f (c ∷ r)) key)) [
    | inr ((w, rest'), h) ↦
        let ih = longest-IsLongest (λ r. f (c ∷ r)) key rest v (ground (arith, h, e)) in
        (
          c ∷ ih.0,
          record {
            parts = ap (◌∷◌ c) ih.1.parts;
            known = ih.1.known;
            most = longer f c key ih.0 ih.1.most;
          },
        )
    | inl n ↦ elim (Option-cases (f [])) [
      | inl m ↦ absurd (ground (arith, n, m, e))
      | inr (w, k) ↦ (
        [],
        record {
          parts = ground (arith, n, k, e);
          known = ground (arith, n, k, e);
          most = λ p q e' m. none-longer f c key n p q e' m;
        },
      )
    ]
  ]
