-- ===== src/Http/Target/Split.antt =====
-- The matched path, the path info and the query: how httpHandleCommand takes a path apart.
use shellinabox.Base.{
  ℕ, suc, ◌-◌, ◌≡◌, ◌≢◌, refl, sym, ap, ◌∙◌, Option, none, some, [], ◌∷◌, ◌++◌, Bytes, ◌==◌,
  if◌then◌else◌, length, take, length-append, arith, inl, inr, Bool-cases, All, All-append,
}
use mathlib.Core.List.{append_assoc, append-nil}
use mathlib.Core.Path.{subst}
use shellinabox.Http.Command.{back_up, reverse_onto, match_path, split_query}

reverse_onto-append : (s acc : Bytes) → reverse_onto s acc ≡ reverse_onto s [] ++ acc
unfolding reverse_onto
reverse_onto-append [] acc = refl
reverse_onto-append (c ∷ s) acc =
    reverse_onto-append s (c ∷ acc)
    ∙ sym (append_assoc (reverse_onto s []) (c ∷ []) acc)
    ∙ ap (λ l. l ++ acc) (sym (reverse_onto-append s (c ∷ [])))

reverse_onto-twice : (s acc : Bytes) → reverse_onto (reverse_onto s acc) [] ≡ reverse_onto acc s
unfolding reverse_onto
reverse_onto-twice [] acc = refl
reverse_onto-twice (c ∷ s) acc = reverse_onto-twice s (c ∷ acc)

reverse_onto-back : (s : Bytes) → reverse_onto (reverse_onto s []) [] ≡ s
unfolding reverse_onto
reverse_onto-back s = reverse_onto-twice s []

-- The last byte of a text, given from its end, is no slash.
abbrev IsBacked : Bytes → Type 0
IsBacked [] = Unit
IsBacked (c ∷ s) = c ≢ b'/'

back_up-IsBacked : (s diff : Bytes) → IsBacked (back_up s diff).0
unfolding back_up
back_up-IsBacked [] diff = tt
back_up-IsBacked (c ∷ s) diff = elim (Bool-cases (c == b'/')) [
  | inl e ↦ rw e (back_up-IsBacked s (c ∷ diff))
  | inr e ↦ rw e (ground (arith, e))
]

one_more :
    (front rest : Bytes)
    → suc (length (front ++ rest)) - length rest ≡ suc (length (front ++ rest) - length rest)
one_more front rest = omega (arith, length-append front rest)

cancel : (n : ℕ) → n - n ≡ 0
cancel n = omega arith

take-front :
    (front rest : Bytes) → take (length (front ++ rest) - length rest) (front ++ rest) ≡ front
take-front [] rest = rw (cancel (length rest)) refl
take-front (c ∷ front) rest = rw (one_more front rest) (ap (◌∷◌ c) (take-front front rest))

-- The slashes at the end of a text, which `back_up` moves.
back_up-slashes :
    (s diff : Bytes)
    → let b = back_up s diff in
      (slashes : Bytes) × All (λ c. c ≡ b'/') slashes
      × (reverse_onto s [] ≡ reverse_onto b.0 [] ++ slashes)
      × (b.1 ≡ slashes ++ diff)
unfolding back_up reverse_onto
back_up-slashes [] diff = ([], tt, refl, refl)
back_up-slashes (c ∷ s) diff = elim (Bool-cases (c == b'/')) [
  | inl e ↦
      let w = back_up-slashes s (c ∷ diff) in
      rw e (
        w.0 ++ c ∷ [],
        All-append (λ c. c ≡ b'/') w.0 (c ∷ []) w.1 (ground (arith, e), tt),
        reverse_onto-append s (c ∷ [])
            ∙ ap (λ l. l ++ c ∷ []) w.2
            ∙ append_assoc (reverse_onto (back_up s (c ∷ diff)).0 []) w.0 (c ∷ []),
        w.3 ∙ sym (append_assoc w.0 (c ∷ []) diff),
      )
  | inr e ↦ rw e ([], tt, sym (append-nil _), refl)
]

reverse_onto-snoc :
    (s acc : Bytes) (c : ℕ) → reverse_onto (s ++ c ∷ []) acc ≡ c ∷ reverse_onto s acc
unfolding reverse_onto
reverse_onto-snoc [] acc c = refl
reverse_onto-snoc (d ∷ s) acc c = reverse_onto-snoc s (d ∷ acc) c

IsBacked-end : (s x : Bytes) → IsBacked s → reverse_onto s [] ≢ x ++ b'/' ∷ []
IsBacked-end s x h e =
    let same : s ≡ b'/' ∷ reverse_onto x [] =
      sym (reverse_onto-back s) ∙ ap (λ l. reverse_onto l []) e ∙ reverse_onto-snoc x [] b'/' in
    subst IsBacked same h refl

-- The prefix is the matched path and slashes, which with the rest are the second part.
pub record Backs (front rest : Bytes) (m : Bytes × Bytes) : Type 0 where
  pub slashes : Bytes
  pub all_slashes : All (λ c. c ≡ b'/') slashes
  pub matched : front ≡ m.0 ++ slashes
  pub behind : m.1 ≡ slashes ++ rest
  pub bare : (x : Bytes) → m.0 ≢ x ++ b'/' ∷ []

pub match_path-Backs : (front rest : Bytes) → Backs front rest (match_path (front ++ rest) rest)
unfolding match_path
match_path-Backs front rest = rw (take-front front rest) (
    let w = back_up-slashes (reverse_onto front []) rest in
    record {
      slashes = w.0;
      all_slashes = w.1;
      matched = sym (reverse_onto-back front) ∙ w.2;
      behind = w.3;
      bare = λ x.
          IsBacked-end (back_up (reverse_onto front []) rest).0 x
            (back_up-IsBacked (reverse_onto front []) rest);
    })

abbrev pub query_text : Option Bytes → Bytes
query_text none = []
query_text (some q) = b'?' ∷ q

split_query-append : (s : Bytes) → (split_query s).0 ++ query_text (split_query s).1 ≡ s
unfolding split_query
split_query-append [] = refl
split_query-append (c ∷ s) = elim (Bool-cases (c == b'?')) [
  | inl e ↦ ground (arith, e)
  | inr e ↦ rw e (ap (◌∷◌ c) (split_query-append s))
]

pub split_query-All : (s : Bytes) → All (λ c. c ≢ b'?') (split_query s).0
unfolding split_query
split_query-All [] = tt
split_query-All (c ∷ s) = elim (Bool-cases (c == b'?')) [
  | inl e ↦ rw e tt
  | inr e ↦ rw e (ground (arith, e), split_query-All s)
]

abbrev pub info_text : Option Bytes → Bytes
info_text none = []
info_text (some s) = s

empty : (s : Bytes) → length s ≡ 0 → s ≡ []
empty [] h = refl
empty (c ∷ s) h = absurd (omega arith)

pub split-text :
    (s : Bytes)
    → info_text (if length (split_query s).0 == 0 then none else some (split_query s).0)
        ++ query_text (split_query s).1
      ≡ s
split-text s = elim (Bool-cases (length (split_query s).0 == 0)) [
  | inl e ↦ rw (e) (
      ap (λ l. l ++ query_text (split_query s).1)
        (sym (empty (split_query s).0 (ground (arith, e))))
      ∙ split_query-append s)
  | inr e ↦ rw e (split_query-append s)
]
