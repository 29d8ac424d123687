-- ===== src/Trie/Longest.antt =====
-- `getFromTrie` finds the longest prefix of a key that is itself a key of the trie.
use shellinabox.Base.{
  ℕ, ◌<◌, ◌≡◌, refl, sym, ap, ◌∙◌, true, false, Option, none, some, [], ◌∷◌, ◌==◌, if◌then◌else◌,
  Bytes, arith, inl, inr, Bool-cases, Option-cases,
}
use mathlib.Core.Path.{fun_ext}
use mathlib.Core.Option.{or_else}
use shellinabox.Trie.{
  Node, node, Kids, nil, cons, Partial, strip, value_of, first_terminal, get_node, get_kids,
  get_from_trie,
}
use shellinabox.Trie.Lookup.{
  IsString, lookup_node, lookup_kids, ends_key, IsTrie, AreKids, lookup_node-miss, lookup_node-hit,
  strip-IsString,
}

module _ {V : Type 0} where
  -- A key that ends here, with what is left.
  abbrev pub stop : Option (Option V) → Bytes → Partial V
  stop none rest = none
  stop (some v) rest = some (v, rest)

  -- The longest prefix of `key` in the map `f`, with its value and what is left of `key` behind it.
  unfoldable pub longest : (Bytes → Option (Option V)) → Bytes → Partial V
  unfolding or_else
  longest f [] = stop (f []) []
  longest f (c ∷ key) = or_else (longest (λ p. f (c ∷ p)) key) (stop (f []) (c ∷ key))

  longest-none :
      (f : Bytes → Option (Option V)) (key : Bytes)
      → ((q : Bytes) → f q ≡ none)
      → longest f key ≡ none
  unfolding longest
  longest-none f [] h = rw (h [])
  longest-none f (c ∷ key) h = rw (h [], longest-none (λ p. f (c ∷ p)) key (λ q. h (c ∷ q)))

  longest-strip :
      (k key : Bytes) (f g : Bytes → Option (Option V))
      → ((q : Bytes) → strip k q ≡ none → f q ≡ none)
      → ((q q' : Bytes) → strip k q ≡ some q' → f q ≡ g q')
      → longest f key ≡ elim (strip k key) [ none ↦ none | some rest ↦ longest g rest ]
  unfolding longest strip
  longest-strip [] key f g miss hit =
      ap (λ (h : Bytes → Option (Option V)). longest h key) (fun_ext (λ q. hit q q refl))
  longest-strip (c ∷ k) [] f g miss hit = rw (miss [] refl)
  longest-strip (c ∷ k) (d ∷ key) f g miss hit = elim (Bool-cases (c == d)) [
    | inl same ↦ ground (
      arith,
      miss [] refl,
      longest-strip k key (λ p. f (d ∷ p)) g (λ q e. miss (d ∷ q) (rw same e))
          (λ q q' e. hit (d ∷ q) q' (rw same e)),
    )
    | inr other ↦
        rw (other, miss [] refl, longest-none (λ p. f (d ∷ p)) key (λ q. miss (d ∷ q) (rw other)))
  ]

  first_terminal-lookup :
      (kids : Kids V) (key : Bytes) (partial : Partial V)
      → first_terminal kids key partial ≡ or_else (stop (lookup_kids kids []) key) partial
  unfolding first_terminal lookup_kids or_else
  first_terminal-lookup nil key partial = refl
  first_terminal-lookup (cons ch n more) key partial =
      ground (arith, first_terminal-lookup more key partial)

  lookup-ends_key : (kids : Kids V) → ends_key kids ≡ false → lookup_kids kids [] ≡ none
  unfolding ends_key lookup_kids
  lookup-ends_key nil h = refl
  lookup-ends_key (cons ch n more) h = ground (arith, lookup-ends_key more)

  longest-node :
      (k : Bytes) (v : Option V) (kids : Kids V) (key : Bytes)
      → longest (lookup_node (node k v kids)) key
        ≡ elim (strip k key) [ none ↦ none | some rest ↦ longest (lookup_kids kids) rest ]
  longest-node k v kids key =
      longest-strip k key (lookup_node (node k v kids)) (lookup_kids kids)
        (λ q e. lookup_node-miss k v kids q e) (λ q q' e. lookup_node-hit k v kids q e)

  -- The two ways to go on from a child, with a byte `c` to read.
  longest-taken :
      (ch c : ℕ) (n : Node V) (more : Kids V) (key : Bytes)
      → c == ch ≡ true
      → 0 < c
      → longest (lookup_kids (cons ch n more)) (c ∷ key)
        ≡ or_else (longest (lookup_node n) key) (stop (lookup_kids more []) (c ∷ key))
  unfolding longest lookup_kids
  longest-taken ch c n more key same pos =
      let ne : (ch == 0) ≡ false = ground arith in
      ap
        (λ (f : Bytes → Option (Option V)).
          or_else (longest f key) (stop (lookup_kids (cons ch n more) []) (c ∷ key)))
        (fun_ext {f = λ p. lookup_kids (cons ch n more) (c ∷ p)} {g = lookup_node n} (λ p. rw same))
      ∙ rw ne

  longest-skipped :
      (ch c : ℕ) (n : Node V) (more : Kids V) (key : Bytes)
      → c == ch ≡ false
      → longest (lookup_kids (cons ch n more)) (c ∷ key)
        ≡ or_else
            (longest (λ p. lookup_kids more (c ∷ p)) key)
            (stop (if ch == 0 then some (value_of n) else lookup_kids more []) (c ∷ key))
  unfolding longest lookup_kids
  longest-skipped ch c n more key other =
      ap
        (λ (f : Bytes → Option (Option V)).
          or_else (longest f key) (stop (lookup_kids (cons ch n more) []) (c ∷ key)))
        (fun_ext (λ p. rw other))

  longest_cons :
      (f : Bytes → Option (Option V)) (c : ℕ) (key : Bytes)
      → longest f (c ∷ key) ≡ or_else (longest (λ p. f (c ∷ p)) key) (stop (f []) (c ∷ key))
  unfolding longest
  longest_cons f c key = refl

  longest_nil : (f : Bytes → Option (Option V)) → longest f [] ≡ stop (f []) []
  unfolding longest
  longest_nil f = refl

  or_else_assoc : (a b c : Partial V) → or_else (or_else a b) c ≡ or_else a (or_else b c)
  unfolding or_else
  or_else_assoc none b c = refl
  or_else_assoc (some a) b c = refl

  module _ (k : Bytes) (v : Option V) (kids : Kids V) (key : Bytes) (partial : Partial V) where
    get_node-miss : strip k key ≡ none → get_node (node k v kids) key partial ≡ partial
    unfolding get_node
    get_node-miss e =
        ap {B = Partial V} (elim [ none ↦ partial | some rest ↦ get_kids kids rest partial ]) e

    get_node-hit :
        {rest : Bytes}
        → strip k key ≡ some rest
        → get_node (node k v kids) key partial ≡ get_kids kids rest partial
    unfolding get_node
    get_node-hit e =
        ap {B = Partial V} (elim [ none ↦ partial | some rest ↦ get_kids kids rest partial ]) e

  or_else-none : (a : Partial V) → or_else a none ≡ a
  unfolding or_else
  or_else-none none = refl
  or_else-none (some a) = refl

  lookup_nil : (q : Bytes) → lookup_kids {V = V} nil q ≡ none
  unfolding lookup_kids
  lookup_nil q = refl

  lookup_end :
      (ch : ℕ) (n : Node V) (more : Kids V)
      → lookup_kids (cons ch n more) []
        ≡ (if ch == 0 then some (value_of n) else lookup_kids more [])
  unfolding lookup_kids
  lookup_end ch n more = refl

  -- At most one child ends a key: what is noted on the way past it is found nowhere else.
  skipped_step :
      (ch c : ℕ) (n : Node V) (more : Kids V) (key : Bytes) (partial : Partial V)
      → c == ch ≡ false
      → (ch ≡ 0 → ends_key more ≡ false)
      → or_else
          (longest (lookup_kids more) (c ∷ key))
          (if ch == 0 then some (value_of n, c ∷ key) else partial)
        ≡ or_else (longest (lookup_kids (cons ch n more)) (c ∷ key)) partial
  unfolding or_else
  skipped_step ch c n more key partial other once =
      rw (longest-skipped ch c n more key other) (elim (Bool-cases (ch == 0)) [
        | inl end ↦
            rw
              (
                end,
                longest_cons (lookup_kids more) c key,
                lookup-ends_key more (once (ground arith)),
              )
              (or_else_assoc (longest (λ p. lookup_kids more (c ∷ p)) key) none _
                ∙ sym (or_else_assoc _ (some (value_of n, c ∷ key)) partial))
        | inr inside ↦ rw (inside, longest_cons (lookup_kids more) c key)
      ])

mutual
  unfolding get_node or_else

  get_node-longest :
      {V : Type 0} (t : Node V) (key : Bytes) (partial : Partial V)
      → IsTrie t
      → IsString key
      → get_node t key partial ≡ or_else (longest (lookup_node t) key) partial
  get_node-longest (node k v kids) key partial t h = elim (Option-cases (strip k key)) [
    | inl miss ↦ get_node-miss k v kids key partial miss ∙ rw (longest-node, miss)
    | inr (rest, hit) ↦
        get_node-hit k v kids key partial hit
        ∙ get_kids-longest kids rest partial t.1 (strip-IsString k key rest hit h)
        ∙ rw (longest-node, hit)
  ]

  get_kids-longest :
      {V : Type 0} (kids : Kids V) (key : Bytes) (partial : Partial V)
      → AreKids kids
      → IsString key
      → get_kids kids key partial ≡ or_else (longest (lookup_kids kids) key) partial
  get_kids-longest nil key partial t h = rw (longest-none (lookup_kids nil) key lookup_nil)
  get_kids-longest (cons ch n more) [] partial t h = ground (
    arith,
    longest_nil (lookup_kids more),
    longest_nil (lookup_kids (cons ch n more)),
    lookup_end ch n more,
    get_kids-longest more [] partial t.2 h,
  )
  get_kids-longest (cons ch n more) (c ∷ key) partial t h = elim (Bool-cases (c == ch)) [
    | inl same ↦ rw same (
        get_node-longest n key (first_terminal more (c ∷ key) partial) t.1 h.1
        ∙ rw (longest-taken ch c n more key same h.0, first_terminal-lookup, or_else_assoc))
    | inr other ↦
        rw other
          (get_kids-longest more (c ∷ key) _ t.2 h ∙ skipped_step ch c n more key partial other t.0)
  ]

-- From a well-formed trie `getFromTrie` returns the value of the longest prefix of the key that is
-- a key of the trie, and points `*diff` behind it; without such a prefix both are NULL.
pub get_from_trie-longest :
    {V : Type 0} (t : Node V) (key : Bytes)
    → IsTrie t
    → IsString key
    → get_from_trie t key ≡ longest (lookup_node t) key
unfolding get_from_trie or_else
get_from_trie-longest t key h hk =
    get_node-longest t key none h hk ∙ or_else-none (longest (lookup_node t) key)
