-- ===== src/Trie.antt =====
-- libhttp/trie.c: the trie of URL handlers. A node has the `idx` bytes of its `key`, a value and
-- its children; a child whose character `ch` is NUL ends a key and holds its value. A child's `ch`
-- stands with the link to it here (the root's `ch` is never read), and `idx` is the length of the
-- key (the C code has -1 for a node without a key, and tests `idx > 0` or counts up to it).
-- A value is a pointer, `none` for NULL. `getFromTrie` is modelled with a `diff`, which its only
-- caller gives.
pub mod Lookup
pub mod Insert
pub mod Shape
pub mod Refines
pub mod Longest
use shellinabox.Base.{
  ℕ, Bool, true, false, ◌&&◌, Option, none, some, List, [], ◌∷◌, ◌++◌, ◌==◌, if◌then◌else◌, Bytes,
}

mutual
  pub data Node (V : Type 0) : Type 0 where
    node : Bytes → Option V → Kids V → Node V

  pub data Kids (V : Type 0) : Type 0 where
    nil : Kids V
    cons : ℕ → Node V → Kids V → Kids V

-- `*key`: the NUL behind the last byte of a string is read as such.
unfoldable pub char_at : Bytes → ℕ
char_at [] = 0
char_at (c ∷ key) = c

unfoldable pub tail_of : Bytes → Bytes
tail_of [] = []
tail_of (c ∷ key) = key

-- The first loop of `addToTrie`: `key` goes on behind the node's key, or it differs from it behind
-- a common part, where the node's key has the byte `c` and a rest.
pub data Match : Type 0 where
  matched : Bytes → Match
  differs : Bytes → ℕ → Bytes → Bytes → Match

unfoldable pub along : ℕ → Match → Match
along c (matched rest) = matched rest
along c (differs common old old_rest rest) = differs (c ∷ common) old old_rest rest

unfoldable pub match_key : Bytes → Bytes → Match
unfolding along
match_key [] key = matched key
match_key (c ∷ k) [] = differs [] c k []
match_key (c ∷ k) (d ∷ key) =
    let m = match_key k key in if d == c then along c m else differs [] c k (d ∷ key)

module _ {V : Type 0} where
  -- `initTrie`, for the root.
  abbrev pub init_trie : Node V
  init_trie = node [] none nil

  -- A child that ends a key: `initTrie` and its value.
  abbrev pub terminal : Option V → Node V
  terminal value = node [] value nil

  -- `addLeafToTrie`, but for `ch`
  unfoldable pub add_leaf : Bytes → Option V → Node V
  add_leaf key value = node key none (cons 0 (terminal value) nil)

  -- The new child, at `*key`, for a key that goes on behind its parent's key.
  unfoldable pub new_node : Bytes → Option V → Node V
  unfolding add_leaf
  new_node [] value = terminal value
  new_node (c ∷ key) value = add_leaf key value

  unfoldable pub value_of : Node V → Option V
  value_of (node k v kids) = v

  unfoldable pub with_value : Node V → Option V → Node V
  with_value (node k v kids) value = node k value kids

  -- `trie->destructor(trie->arg, trie->children[i].value)`, where there is a destructor
  unfoldable pub released : Bool → Option V → List (Option V)
  released destructor value = if destructor then value ∷ [] else []

-- `addToTrie` from the label `nextNode` on: the node, and the destructor's calls.
unfoldable mutual
  unfolding match_key new_node char_at tail_of value_of with_value released

  pub add_node : {V : Type 0} → Bool → Node V → Bytes → Option V → Node V × List (Option V)
  add_node destructor (node k v kids) key value = elim (match_key k key) [
    | matched rest ↦ let r = add_kids destructor kids rest value in (node k v r.0, r.1)
    | differs common old old_rest rest ↦ (
      node common none
          (cons old (node old_rest v kids) (cons (char_at rest) (new_node rest value) nil)),
      [],
    )
  ]

  pub add_kids : {V : Type 0} → Bool → Kids V → Bytes → Option V → Kids V × List (Option V)
  add_kids destructor nil rest value = (cons (char_at rest) (new_node rest value) nil, [])
  add_kids destructor (cons ch n more) rest value =
      let down = add_node destructor n (tail_of rest) value in
      let on = add_kids destructor more rest value in
      if char_at rest == ch
      then (if ch == 0
          then (cons ch (with_value n value) more, released destructor (value_of n))
          else (cons ch down.0 more, down.1))
      else (cons ch n on.0, on.1)

-- `addToTrie`; a root without children becomes a leaf.
unfoldable pub add_to_trie :
    {V : Type 0} → Bool → Node V → Bytes → Option V → Node V × List (Option V)
unfolding add_leaf add_node
add_to_trie destructor (node k v nil) key value = (add_leaf key value, [])
add_to_trie destructor (node k v (cons ch n kids)) key value =
    add_node destructor (node k v (cons ch n kids)) key value

-- `memcmp(trie->key, key, trie->idx)` and the step over it: the rest of `key` behind `k`.
unfoldable pub strip : Bytes → Bytes → Option Bytes
strip [] key = some key
strip (c ∷ k) [] = none
strip (c ∷ k) (d ∷ key) = if c == d then strip k key else none

-- A node that ends a key, and what is left of the key there.
abbrev pub Partial : Type 0 → Type 0
Partial V = Option (Option V × Bytes)

-- The first child that ends a key, among those behind the one that is taken.
unfoldable pub first_terminal : {V : Type 0} → Kids V → Bytes → Partial V → Partial V
unfolding value_of
first_terminal nil key partial = partial
first_terminal (cons ch n more) key partial =
    if ch == 0 then some (value_of n, key) else first_terminal more key partial

-- `getFromTrie`: the value, and the rest of the key at which `*diff` points; `none` is NULL for
-- both. `partial` is the longest match so far.
unfoldable mutual
  unfolding strip first_terminal value_of

  pub get_node : {V : Type 0} → Node V → Bytes → Partial V → Partial V
  get_node (node k v kids) key partial = elim (strip k key) [
    | none ↦ partial
    | some rest ↦ get_kids kids rest partial
  ]

  pub get_kids : {V : Type 0} → Kids V → Bytes → Partial V → Partial V
  get_kids nil key partial = partial
  get_kids (cons ch n more) [] partial =
      let on = get_kids more [] partial in if ch == 0 then some (value_of n, []) else on
  get_kids (cons ch n more) (c ∷ key) partial =
      let down = get_node n key (first_terminal more (c ∷ key) partial) in
      let on = get_kids more (c ∷ key) (if ch == 0 then some (value_of n, c ∷ key) else partial) in
      if c == ch then down else on

unfoldable pub get_from_trie : {V : Type 0} → Node V → Bytes → Partial V
unfolding get_node
get_from_trie t key = get_node t key none
