-- ===== src/Trie/Insert.antt =====
-- `addToTrie` against the map that the trie stands for.
use shellinabox.Base.{
  ℕ, ◌<◌, ◌≡◌, ◌≢◌, refl, ap, ◌∙◌, Bool, false, Option, none, some, List, [], ◌∷◌, ◌++◌,
  if◌then◌else◌, Bytes, ◌==ˢ◌, arith, inl, inr, Option-cases, ◌⊎◌,
}
use shellinabox.Trie.{
  Node, node, Kids, nil, cons, char_at, tail_of, Match, matched, differs, match_key, strip,
  value_of, with_value, new_node, add_leaf, terminal, add_node, add_kids,
}
use shellinabox.Trie.Lookup.{
  IsString, lookup_node, lookup_kids, IsTrie, AreKids, Matches, match_key-Matches,
  strip-append_miss, strip-append_hit, append-==ˢ_miss, append-==ˢ_hit, strip-IsString,
  append-IsString, lookup_node-miss, lookup_node-hit,
}
use mathlib.Core.List.{append-nil}

pub Match-cases :
    (m : Match)
    → ((rest : Bytes) × (m ≡ matched rest))
      ⊎ ((common : Bytes) × (old : ℕ) × (old_rest : Bytes) × (rest : Bytes) × (m
            ≡ differs common old old_rest rest))
Match-cases (matched rest) = inl (rest, refl)
Match-cases (differs common old old_rest rest) = inr (common, old, old_rest, rest, refl)

char_at-==ˢ : (rest q : Bytes) (c : ℕ) → char_at rest ≢ c → (rest ==ˢ c ∷ q) ≡ false
unfolding char_at ◌==ˢ◌
char_at-==ˢ [] q c ne = refl
char_at-==ˢ (d ∷ rest) q c ne = ground arith

module _ {V : Type 0} where
  lookup-terminal :
      (q : Bytes) (value : Option V)
      → IsString q
      → lookup_kids (cons 0 (terminal value) nil) q ≡ (if [] ==ˢ q then some value else none)
  unfolding lookup_kids ◌==ˢ◌
  lookup-terminal [] value hq = refl
  lookup-terminal (e ∷ q) value hq = ground arith

  pub lookup-add_leaf :
      (rest q : Bytes) (value : Option V)
      → IsString q
      → lookup_node (add_leaf rest value) q ≡ (if rest ==ˢ q then some value else none)
  unfolding add_leaf
  lookup-add_leaf rest q value hq = elim (Option-cases (strip rest q)) [
    | inl miss ↦
        lookup_node-miss rest none _ q miss
        ∙ rw (rw (append-nil rest) at (append-==ˢ_miss rest [] q miss))
    | inr (q', hit) ↦
        lookup_node-hit rest none _ q hit
        ∙ lookup-terminal q' value (strip-IsString rest q q' hit hq)
        ∙ rw (rw (append-nil rest) at (append-==ˢ_hit rest [] q hit))
  ]

  -- A new child holds its key alone.
  lookup-new_node :
      (rest q : Bytes) (value : Option V)
      → IsString rest
      → IsString q
      → lookup_kids (cons (char_at rest) (new_node rest value) nil) q
        ≡ (if rest ==ˢ q then some value else none)
  unfolding lookup_kids new_node char_at ◌==ˢ◌
  lookup-new_node [] [] value h hq = refl
  lookup-new_node [] (e ∷ q) value h hq = ground arith
  lookup-new_node (c ∷ rest) [] value h hq = ground arith
  lookup-new_node (c ∷ rest) (e ∷ q) value h hq = ground (arith, lookup-add_leaf rest q value hq.1)

  lookup-with_value :
      (n : Node V) (value : Option V) (q : Bytes)
      → lookup_node (with_value n value) q ≡ lookup_node n q
  unfolding lookup_node with_value
  lookup-with_value (node k v kids) value q = refl

  value_of-with_value : (n : Node V) (value : Option V) → value_of (with_value n value) ≡ value
  unfolding value_of with_value
  value_of-with_value (node k v kids) value = refl

  matched_step :
      (k rest key q : Bytes) (v value : Option V) (kids kids' : Kids V)
      → key ≡ k ++ rest
      → IsString q
      → ((q' : Bytes)
          → IsString q'
          → lookup_kids kids' q' ≡ (if rest ==ˢ q' then some value else lookup_kids kids q'))
      → lookup_node (node k v kids') q
        ≡ (if key ==ˢ q then some value else lookup_node (node k v kids) q)
  unfolding lookup_node
  matched_step k rest key q v value kids kids' e hq ih = elim (Option-cases (strip k q)) [
    | inl miss ↦ ground (
      arith,
      append-==ˢ_miss k rest q miss,
      lookup_node-miss k v kids q miss,
      lookup_node-miss k v kids' q miss,
    )
    | inr (q', hit) ↦ ground (
      arith,
      append-==ˢ_hit k rest q hit,
      lookup_node-hit k v kids q hit,
      lookup_node-hit k v kids' q hit,
      ih q' (strip-IsString k q q' hit hq),
    )
  ]

  module _ (d : Bool) (k key : Bytes) (v value : Option V) (kids : Kids V) where
    -- The two cases of `add_node`.
    cases : Match → Node V × List (Option V)
    cases = elim [
      | matched rest ↦ let r = add_kids d kids rest value in (node k v r.0, r.1)
      | differs common old old_rest rest ↦ (
        node common none
            (cons old (node old_rest v kids) (cons (char_at rest) (new_node rest value) nil)),
        [],
      )
    ]

    add_node-cases :
        {m : Match} → match_key k key ≡ m → add_node d (node k v kids) key value ≡ cases m
    unfolding add_node cases
    add_node-cases e = ap cases e

    pub add_node-matched :
        {rest : Bytes}
        → match_key k key ≡ matched rest
        → (add_node d (node k v kids) key value).0 ≡ node k v (add_kids d kids rest value).0
    unfolding cases
    add_node-matched e = ap (λ (r : Node V × List (Option V)). r.0) (add_node-cases e)

    pub add_node-differs :
        {common old_rest rest : Bytes} {old : ℕ}
        → match_key k key ≡ differs common old old_rest rest
        → (add_node d (node k v kids) key value).0
          ≡ node common none
              (cons old (node old_rest v kids) (cons (char_at rest) (new_node rest value) nil))
    unfolding cases
    add_node-differs e = ap (λ (r : Node V × List (Option V)). r.0) (add_node-cases e)

  -- The two children behind a split hold the old keys and the new one.
  lookup_split :
      (k old_rest rest q q' : Bytes) (old : ℕ) (v value : Option V) (kids : Kids V)
      → 0 < old
      → IsString rest
      → IsString q'
      → strip k q ≡ strip (old ∷ old_rest) q'
      → char_at rest ≢ old
      → lookup_kids
          (cons old (node old_rest v kids) (cons (char_at rest) (new_node rest value) nil))
          q'
        ≡ (if rest ==ˢ q' then some value else lookup_node (node k v kids) q)
  unfolding lookup_kids strip
  lookup_split k old_rest rest q [] old v value kids pos hr hq e ne =
      ground (arith, lookup-new_node rest [] value hr hq, lookup_node-miss k v kids q)
  lookup_split k old_rest rest q (c ∷ q') old v value kids pos hr hq e ne =
      elim (Option-cases (strip old_rest q')) [
        | inl miss ↦ ground (
          arith,
          lookup-new_node rest (c ∷ q') value hr hq,
          char_at-==ˢ rest q' c,
          lookup_node-miss k v kids q,
          lookup_node-miss old_rest v kids q' miss,
        )
        | inr (r, hit) ↦ ground (
          arith,
          lookup-new_node rest (c ∷ q') value hr hq,
          char_at-==ˢ rest q' c,
          lookup_node-miss k v kids q,
          lookup_node-hit k v kids q {q' = r},
          lookup_node-hit old_rest v kids q' hit,
        )
      ]

  differs_step :
      (k key common old_rest rest q : Bytes) (old : ℕ) (v value : Option V) (kids : Kids V)
      → IsString k
      → IsString rest
      → IsString q
      → Matches k key (differs common old old_rest rest)
      → lookup_node
          (node common none
            (cons old (node old_rest v kids) (cons (char_at rest) (new_node rest value) nil)))
          q
        ≡ (if key ==ˢ q then some value else lookup_node (node k v kids) q)
  differs_step k key common old_rest rest q old v value kids hk hr hq m =
      let kids' = cons old (node old_rest v kids) (cons (char_at rest) (new_node rest value) nil) in
      elim (Option-cases (strip common q)) [
        | inl miss ↦ ground (
          arith,
          m,
          append-==ˢ_miss common rest q miss,
          lookup_node-miss common none kids' q miss,
          lookup_node-miss k v kids q,
          strip-append_miss common (old ∷ old_rest) q miss,
        )
        | inr (q', hit) ↦ ground (
          arith,
          m,
          append-==ˢ_hit common rest q hit,
          lookup_node-hit common none kids' q hit,
          strip-append_hit common (old ∷ old_rest) q hit,
          lookup_split k old_rest rest q q' old v value kids
              (append-IsString common (old ∷ old_rest) (rw m.0 at hk)).1.0 hr
              (strip-IsString common q q' hit hq)
              (rw m.0 (strip-append_hit common (old ∷ old_rest) q hit)) m.2,
        )
      ]

mutual
  unfolding add_node lookup_node ◌==ˢ◌ char_at tail_of

  pub lookup_node-add_node :
      {V : Type 0} (d : Bool) (t : Node V) (key : Bytes) (value : Option V) (q : Bytes)
      → IsTrie t
      → IsString key
      → IsString q
      → lookup_node (add_node d t key value).0 q
        ≡ (if key ==ˢ q then some value else lookup_node t q)
  lookup_node-add_node {V} d (node k v kids) key value q t h hq =
      elim (Match-cases (match_key k key)) [
        | inl (rest, e) ↦
            let m = rw e at (match_key-Matches k key t.0) in
            ap (λ (n : Node V). lookup_node n q) (add_node-matched d k key v value kids e)
            ∙ (matched_step k rest key q v value kids (add_kids d kids rest value).0 m hq (λ q' hq'.
                lookup_kids-add_kids d kids rest value q' t.1 (append-IsString k rest (rw m at h)).1
                  hq'))
        | inr (common, old, old_rest, rest, e) ↦
            let m = rw e at (match_key-Matches k key t.0) in
            ap (λ (n : Node V). lookup_node n q) (add_node-differs d k key v value kids e)
            ∙ (differs_step k key common old_rest rest q old v value kids t.0
                (append-IsString common rest (rw m.1 at h)).1 hq m)
      ]

  lookup_kids-add_kids :
      {V : Type 0} (d : Bool) (kids : Kids V) (key : Bytes) (value : Option V) (q : Bytes)
      → AreKids kids
      → IsString key
      → IsString q
      → lookup_kids (add_kids d kids key value).0 q
        ≡ (if key ==ˢ q then some value else lookup_kids kids q)
  lookup_kids-add_kids d nil key value q t h hq = lookup-new_node key q value h hq
  lookup_kids-add_kids d (cons ch n more) [] value [] t h hq =
      ground (arith, value_of-with_value n value, lookup_kids-add_kids d more [] value [] t.2 h hq)
  lookup_kids-add_kids d (cons ch n more) [] value (c ∷ q) t h hq =
      ground
        (arith, lookup-with_value n value q, lookup_kids-add_kids d more [] value (c ∷ q) t.2 h hq)
  lookup_kids-add_kids d (cons ch n more) (k ∷ key) value [] t h hq =
      ground (arith, lookup_kids-add_kids d more (k ∷ key) value [] t.2 h hq)
  lookup_kids-add_kids d (cons ch n more) (k ∷ key) value (c ∷ q) t h hq = ground (
    arith,
    lookup_kids-add_kids d more (k ∷ key) value (c ∷ q) t.2 h hq,
    lookup_node-add_node d n key value q t.1 h.1 hq.1,
  )
