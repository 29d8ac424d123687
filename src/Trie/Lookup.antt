-- ===== src/Trie/Lookup.antt =====
-- The trie as a map from strings, and the common part of two keys.
use shellinabox.Base.{
  ℕ, ◌<◌, ◌≡◌, ◌≢◌, refl, ap, ◌∙◌, Bool, true, false, Option, none, some, [], ◌∷◌, ◌++◌, ◌==◌,
  if◌then◌else◌, Bytes, ◌==ˢ◌, arith, inl, inr, Bool-cases, All,
}
use shellinabox.Trie.{
  Node, node, Kids, nil, cons, char_at, Match, matched, differs, along, match_key, strip, value_of,
}

-- No byte is NUL.
abbrev pub IsString : Bytes → Type 0
IsString = All (λ (c : ℕ). 0 < c)

unfoldable mutual
  unfolding strip value_of

  -- The value under exactly this key.
  pub lookup_node : {V : Type 0} → Node V → Bytes → Option (Option V)
  lookup_node (node k v kids) key = elim (strip k key) [
    | none ↦ none
    | some rest ↦ lookup_kids kids rest
  ]

  pub lookup_kids : {V : Type 0} → Kids V → Bytes → Option (Option V)
  lookup_kids nil key = none
  lookup_kids (cons ch n more) [] =
      let on = lookup_kids more [] in if ch == 0 then some (value_of n) else on
  lookup_kids (cons ch n more) (c ∷ key) =
      let down = lookup_node n key in
      let on = lookup_kids more (c ∷ key) in if c == ch then down else on

unfoldable pub ends_key : {V : Type 0} → Kids V → Bool
ends_key nil = false
ends_key (cons ch n more) = let on = ends_key more in if ch == 0 then true else on

-- The nodes' keys are strings, and one child at most ends a key.
abbrev mutual
  pub IsTrie : {V : Type 0} → Node V → Type 0
  IsTrie (node k v kids) = IsString k × AreKids kids

  pub AreKids : {V : Type 0} → Kids V → Type 0
  AreKids nil = Unit
  AreKids (cons ch n more) = (ch ≡ 0 → ends_key more ≡ false) × IsTrie n × AreKids more

-- What `match_key` finds, as equations between the keys.
abbrev pub Matches : Bytes → Bytes → Match → Type 0
Matches k key (matched rest) = key ≡ k ++ rest
Matches k key (differs common old old_rest rest) =
    (k ≡ common ++ (old ∷ old_rest)) × (key ≡ common ++ rest) × (char_at rest ≢ old)

along-Matches :
    (c : ℕ) (k key : Bytes) (m : Match) → Matches k key m → Matches (c ∷ k) (c ∷ key) (along c m)
unfolding along
along-Matches c k key (matched rest) h = ap (◌∷◌ c) h
along-Matches c k key (differs common old old_rest rest) h = (ap (◌∷◌ c) h.0, ap (◌∷◌ c) h.1, h.2)

pub match_key-Matches : (k key : Bytes) → IsString k → Matches k key (match_key k key)
unfolding match_key char_at
match_key-Matches [] key h = refl
match_key-Matches (c ∷ k) [] h = (refl, refl, omega arith)
match_key-Matches (c ∷ k) (d ∷ key) h = elim (Bool-cases (d == c)) [
  | inl same ↦
      let e : d ≡ c = ground arith in
      rw (same, e) (along-Matches c k key (match_key k key) (match_key-Matches k key h.1))
  | inr other ↦ rw other (refl, refl, ground arith)
]

strip-append :
    (a b q : Bytes) → strip (a ++ b) q ≡ elim (strip a q) [ none ↦ none | some q' ↦ strip b q' ]
unfolding strip
strip-append [] b q = refl
strip-append (c ∷ a) b [] = refl
strip-append (c ∷ a) b (d ∷ q) = ground (arith, strip-append a b q)

append-==ˢ :
    (a b q : Bytes) → ((a ++ b) ==ˢ q) ≡ elim (strip a q) [ none ↦ false | some q' ↦ b ==ˢ q' ]
unfolding strip ◌==ˢ◌
append-==ˢ [] b q = refl
append-==ˢ (c ∷ a) b [] = refl
append-==ˢ (c ∷ a) b (d ∷ q) = ground (arith, append-==ˢ a b q)

pub strip-append_miss : (a b q : Bytes) → strip a q ≡ none → strip (a ++ b) q ≡ none
strip-append_miss a b q e = strip-append a b q ∙ rw e

pub strip-append_hit :
    (a b q : Bytes) {q' : Bytes} → strip a q ≡ some q' → strip (a ++ b) q ≡ strip b q'
strip-append_hit a b q e = strip-append a b q ∙ rw e

pub append-==ˢ_miss : (a b q : Bytes) → strip a q ≡ none → ((a ++ b) ==ˢ q) ≡ false
append-==ˢ_miss a b q e = append-==ˢ a b q ∙ rw e

pub append-==ˢ_hit :
    (a b q : Bytes) {q' : Bytes} → strip a q ≡ some q' → ((a ++ b) ==ˢ q) ≡ (b ==ˢ q')
append-==ˢ_hit a b q e = append-==ˢ a b q ∙ rw e

pub append-IsString : (a b : Bytes) → IsString (a ++ b) → IsString a × IsString b
append-IsString [] b h = (tt, h)
append-IsString (c ∷ a) b h = let t = append-IsString a b h.1 in ((h.0, t.0), t.1)

pub strip-IsString : (k q q' : Bytes) → strip k q ≡ some q' → IsString q → IsString q'
unfolding strip
strip-IsString [] q q' e h = let e' : q ≡ q' = cc in rw (← e') h
strip-IsString (c ∷ k) [] q' e h = cc
strip-IsString (c ∷ k) (d ∷ q) q' e h = elim (Bool-cases (c == d)) [
  | inl same ↦ strip-IsString k q q' (rw same at e) h.1
  | inr other ↦ let e' : none ≡ some q' = rw other at e in cc
]

module _ {V : Type 0} (k : Bytes) (v : Option V) (kids : Kids V) (q : Bytes) where
  pub lookup_node-miss : strip k q ≡ none → lookup_node (node k v kids) q ≡ none
  unfolding lookup_node
  lookup_node-miss e =
      ap {B = Option (Option V)} (elim [ none ↦ none | some rest ↦ lookup_kids kids rest ]) e

  pub lookup_node-hit :
      {q' : Bytes} → strip k q ≡ some q' → lookup_node (node k v kids) q ≡ lookup_kids kids q'
  unfolding lookup_node
  lookup_node-hit e =
      ap {B = Option (Option V)} (elim [ none ↦ none | some rest ↦ lookup_kids kids rest ]) e
