-- ===== src/Trie/Refines.antt =====
-- The trie of the URL handlers as a map from strings: any sequence of registrations.
use shellinabox.Base.{
  ◌≡◌, refl, ◌∙◌, Bool, Option, none, some, List, [], ◌∷◌, if◌then◌else◌, Bytes, ◌==ˢ◌, All, inl,
  inr, Option-cases,
}
use shellinabox.Trie.{Node, node, nil, cons, init_trie, add_leaf, add_to_trie, get_from_trie, strip}
use shellinabox.Trie.Lookup.{
  IsString, lookup_node, IsTrie, lookup_node-miss, lookup_node-hit, lookup_kids, ends_key,
}
use shellinabox.Trie.Insert.{lookup_node-add_node, lookup-add_leaf}
use shellinabox.Trie.Shape.{add_node-IsTrie}
use shellinabox.Trie.Longest.{longest, get_from_trie-longest}

module _ {V : Type 0} where
  lookup-no_kids : (k : Bytes) (v : Option V) (q : Bytes) → lookup_node (node k v nil) q ≡ none
  lookup-no_kids k v q = elim (Option-cases (strip k q)) [
    | inl miss ↦ lookup_node-miss k v nil q miss
    | inr (q', hit) ↦ lookup_node-hit k v nil q hit ∙ unfold lookup_kids in refl
  ]

  lookup-add_to_trie :
      (d : Bool) (t : Node V) (key : Bytes) (value : Option V) (q : Bytes)
      → IsTrie t
      → IsString key
      → IsString q
      → lookup_node (add_to_trie d t key value).0 q
        ≡ (if key ==ˢ q then some value else lookup_node t q)
  unfolding add_to_trie
  lookup-add_to_trie d (node k v nil) key value q t h hq =
      rw (lookup-no_kids k v q) (unfold add_to_trie in lookup-add_leaf key q value hq)
  lookup-add_to_trie d (node k v (cons ch n kids)) key value q t h hq =
      lookup_node-add_node d (node k v (cons ch n kids)) key value q t h hq

  add_to_trie-IsTrie :
      (d : Bool) (t : Node V) (key : Bytes) (value : Option V)
      → IsTrie t
      → IsString key
      → IsTrie (add_to_trie d t key value).0
  unfolding add_to_trie add_leaf ends_key
  add_to_trie-IsTrie d (node k v nil) key value t h = (h, ((λ _. refl), (tt, tt), tt))
  add_to_trie-IsTrie d (node k v (cons ch n kids)) key value t h =
      add_node-IsTrie d (node k v (cons ch n kids)) key value t h

  -- Registrations one after another, each a key and a value.
  unfoldable pub add_all : Bool → Node V → List (Bytes × Option V) → Node V
  add_all d t [] = t
  add_all d t ((key, value) ∷ l) = add_all d (add_to_trie d t key value).0 l

  -- The map that they describe: the last value at a key counts.
  unfoldable pub registered :
      (Bytes → Option (Option V)) → List (Bytes × Option V) → Bytes → Option (Option V)
  registered f [] q = f q
  registered f ((key, value) ∷ l) q = registered (λ p. if key ==ˢ p then some value else f p) l q

  abbrev pub AreStrings : List (Bytes × Option V) → Type 0
  AreStrings = All (λ (e : Bytes × Option V). IsString e.0)

  add_all-IsTrie :
      (d : Bool) (t : Node V) (l : List (Bytes × Option V))
      → IsTrie t
      → AreStrings l
      → IsTrie (add_all d t l)
  unfolding add_all
  add_all-IsTrie d t [] h s = h
  add_all-IsTrie d t ((key, value) ∷ l) h s =
      add_all-IsTrie d (add_to_trie d t key value).0 l (add_to_trie-IsTrie d t key value h s.0) s.1

  lookup-add_all :
      (d : Bool) (t : Node V) (l : List (Bytes × Option V)) (f : Bytes → Option (Option V))
      → IsTrie t
      → AreStrings l
      → ((q : Bytes) → IsString q → lookup_node t q ≡ f q)
      → (q : Bytes) → IsString q
      → lookup_node (add_all d t l) q ≡ registered f l q
  unfolding add_all registered
  lookup-add_all d t [] f h s e q hq = e q hq
  lookup-add_all d t ((key, value) ∷ l) f h s e q hq =
      lookup-add_all d (add_to_trie d t key value).0 l _ (add_to_trie-IsTrie d t key value h s.0)
        s.1 (λ p hp. lookup-add_to_trie d t key value p h s.0 hp ∙ rw (e p hp)) q hq

  longest_congr :
      (f g : Bytes → Option (Option V)) (key : Bytes)
      → ((q : Bytes) → IsString q → f q ≡ g q)
      → IsString key
      → longest f key ≡ longest g key
  unfolding longest
  longest_congr f g [] e h = rw (e [] tt)
  longest_congr f g (c ∷ key) e h = rw (
    e [] tt,
    longest_congr (λ p. f (c ∷ p)) (λ p. g (c ∷ p)) key (λ q hq. e (c ∷ q) (h.0, hq)) h.1,
  )

  -- After any sequence of registrations in a fresh trie, whose keys are C strings, `getFromTrie`
  -- returns for a key the value last registered under the longest of its prefixes that have been
  -- registered at all, and points `*diff` behind this prefix; without one both are NULL.
  pub get_from_trie-add_all :
      (d : Bool) (l : List (Bytes × Option V)) (key : Bytes)
      → AreStrings l
      → IsString key
      → get_from_trie (add_all d init_trie l) key ≡ longest (registered (λ _. none) l) key
  get_from_trie-add_all d l key s h =
      get_from_trie-longest (add_all d init_trie l) key (add_all-IsTrie d init_trie l (tt, tt) s) h
      ∙ longest_congr _ _ key
          (lookup-add_all d init_trie l (λ _. none) (tt, tt) s (λ q _. lookup-no_kids [] none q)) h
