-- ===== src/Trie/Shape.antt =====
-- `addToTrie` keeps the shape of the trie.
use shellinabox.Base.{
  ℕ, ◌<◌, ◌≡◌, refl, ◌∙◌, Bool, Option, none, [], ◌∷◌, ◌++◌, ◌==◌, Bytes, arith, inl, inr,
  Bool-cases,
}
use shellinabox.Trie.{
  Node, node, Kids, nil, cons, char_at, tail_of, match_key, with_value, new_node, add_leaf,
  add_node, add_kids,
}
use shellinabox.Trie.Lookup.{
  IsString, ends_key, IsTrie, AreKids, match_key-Matches, append-IsString,
}
use shellinabox.Trie.Insert.{Match-cases, add_node-matched, add_node-differs}

tail_of-IsString : (rest : Bytes) → IsString rest → IsString (tail_of rest)
unfolding tail_of
tail_of-IsString [] h = h
tail_of-IsString (c ∷ rest) h = h.1

module _ {V : Type 0} where
  ends_key-add_kids :
      (d : Bool) (kids : Kids V) (rest : Bytes) (value : Option V)
      → 0 < char_at rest
      → ends_key (add_kids d kids rest value).0 ≡ ends_key kids
  unfolding ends_key add_kids
  ends_key-add_kids d nil rest value h = ground arith
  ends_key-add_kids d (cons ch n more) rest value h =
      ground (arith, ends_key-add_kids d more rest value h)

  pub new_node-IsTrie :
      (rest : Bytes) (value : Option V) → IsString rest → IsTrie (new_node rest value)
  unfolding new_node add_leaf ends_key
  new_node-IsTrie [] value h = ground arith
  new_node-IsTrie (c ∷ rest) value h = (h.1, ((λ _. refl), (tt, tt), tt))

  with_value-IsTrie : (n : Node V) (value : Option V) → IsTrie n → IsTrie (with_value n value)
  unfolding with_value
  with_value-IsTrie (node k v kids) value h = h

  differs-IsTrie :
      (common old_rest rest : Bytes) (old : ℕ) (v value : Option V) (kids : Kids V)
      → IsString (common ++ (old ∷ old_rest))
      → IsString rest
      → AreKids kids
      → IsTrie (
          node common none
            (cons old (node old_rest v kids) (cons (char_at rest) (new_node rest value) nil)))
  unfolding ends_key
  differs-IsTrie common old_rest rest old v value kids hk hr ks =
      let t = append-IsString common (old ∷ old_rest) hk in
      (
        t.0,
        (
          (λ e. absurd (omega arith)),
          (t.1.1, ks),
          ((λ _. refl), new_node-IsTrie rest value hr, tt),
        ),
      )

mutual
  unfolding add_node ends_key

  pub add_node-IsTrie :
      {V : Type 0} (d : Bool) (t : Node V) (key : Bytes) (value : Option V)
      → IsTrie t
      → IsString key
      → IsTrie (add_node d t key value).0
  add_node-IsTrie d (node k v kids) key value t h = elim (Match-cases (match_key k key)) [
    | inl (rest, e) ↦
        let m = rw e at (match_key-Matches k key t.0) in
        rw (add_node-matched d k key v value kids e)
          (t.0, add_kids-AreKids d kids rest value t.1 (append-IsString k rest (rw m at h)).1)
    | inr (common, old, old_rest, rest, e) ↦
        let m = rw e at (match_key-Matches k key t.0) in
        rw (add_node-differs d k key v value kids e) (
          differs-IsTrie common old_rest rest old v value kids (rw m.0 at t.0)
            (append-IsString common rest (rw m.1 at h)).1 t.1)
  ]

  add_kids-AreKids :
      {V : Type 0} (d : Bool) (kids : Kids V) (key : Bytes) (value : Option V)
      → AreKids kids
      → IsString key
      → AreKids (add_kids d kids key value).0
  add_kids-AreKids d nil key value t h = ((λ _. refl), new_node-IsTrie key value h, tt)
  add_kids-AreKids d (cons ch n more) key value t h = elim (Bool-cases (char_at key == ch)) [
    | inr other ↦ rw other (
      (λ e. ends_key-add_kids d more key value (ground arith) ∙ t.0 e),
      t.1,
      add_kids-AreKids d more key value t.2 h,
    )
    | inl same ↦ elim (Bool-cases (ch == 0)) [
      | inl end ↦ rw (same, end) (t.0, with_value-IsTrie n value t.1, t.2)
      | inr inside ↦
          rw (same, inside)
            (t.0, add_node-IsTrie d n (tail_of key) value t.1 (tail_of-IsString key h), t.2)
    ]
  ]
