-- ===== src/Http/Target.antt =====
-- Which handler serves a path, and the parts in which it gets the path.
pub mod Prefix
pub mod Split
use shellinabox.Base.{
  ℕ, suc, ◌-◌, ◌≤◌, ◌≡◌, ◌≢◌, refl, sym, ap, ◌∙◌, true, Option, none, some, List, [], ◌∷◌, ◌++◌,
  Bytes, ◌==◌, if◌then◌else◌, length, take, length-append, arith, inl, inr, Bool-cases,
  Option-cases, Bool, false, All, All-append,
}
use mathlib.Core.List.{append_assoc, append-nil}
use mathlib.Core.Option.{or_else}
use mathlib.Core.Path.{subst}
use shellinabox.Trie.{Node, get_from_trie, init_trie}
use shellinabox.Trie.Longest.{longest}
use shellinabox.Trie.Lookup.{IsString}
use shellinabox.Trie.Refines.{add_all, registered, AreStrings, get_from_trie-add_all}
use shellinabox.Http.Command.{
  Handler, Request, Decision, serve, back_up, reverse_onto, match_path, split_query, serve_path,
  handshake, find_handler, decide, is_served, checked_host, starts_well,
}
use Prefix.{IsLongest, longest-IsLongest}
use Split.{Backs, match_path-Backs, query_text, split_query-All, info_text, split-text}

-- What a decision to serve a path comes from.
record ServedBy (h : Handler) (path rest : Bytes) (f : ℕ) (m : Bytes) (i q : Option Bytes)
    : Type 0 where
  handles : h.handler ≡ some f
  matches : m ≡ (match_path path rest).0
  informs : i ≡ (
      if length (split_query (match_path path rest).1).0 == 0
      then none
      else some (split_query (match_path path rest).1).0)
  asks : q ≡ (split_query (match_path path rest).1).1

serve_path-ServedBy :
    (h : Handler) (path rest : Bytes) (f : ℕ) (m : Bytes) (i q : Option Bytes)
    → serve_path h path rest ≡ serve f m i q
    → ServedBy h path rest f m i q
unfolding serve_path
serve_path-ServedBy h path rest f m i q e = elim (Option-cases h.handler) [
  | inl n ↦ absurd (ground (arith, n, e))
  | inr (g, k) ↦ elim (Bool-cases (starts_well (match_path path rest).1)) [
    | inl s ↦ record {
      handles = ground (arith, k, s, e);
      matches = ground (arith, k, s, e);
      informs = ground (arith, k, s, e);
      asks = ground (arith, k, s, e);
    }
    | inr s ↦ absurd (ground (arith, k, s, e))
  ]
]

not_served :
    (h : Handler) (host : Option Bytes) (r : Request) (d : Decision) (f : ℕ) (m : Bytes)
    (i q : Option Bytes)
    → handshake r host h ≡ some d
    → d ≢ serve f m i q
unfolding handshake
not_served h host r d f m i q e k = ground arith

find_handler-ServedBy :
    (handlers : Node Handler) (r : Request) (f : ℕ) (m : Bytes) (i q : Option Bytes)
    → find_handler handlers r ≡ serve f m i q
    → (h : Handler) × (rest : Bytes) × (get_from_trie handlers r.path ≡ some (some h, rest))
      × ServedBy h r.path rest f m i q
unfolding find_handler
find_handler-ServedBy handlers r f m i q e = elim (Option-cases (checked_host r.header)) [
  | inl n ↦ absurd (ground (arith, n, e))
  | inr (host, c) ↦ elim (Option-cases (get_from_trie handlers r.path)) [
    | inl n ↦ absurd (ground (arith, c, n, e))
    | inr ((none, rest), g) ↦ absurd (ground (arith, c, g, e))
    | inr ((some h, rest), g) ↦ elim (Option-cases (handshake r host h)) [
      | inr (d, k) ↦ absurd (not_served h host r d f m i q k (ground (arith, c, g, k, e)))
      | inl n ↦ (h, rest, g, serve_path-ServedBy h r.path rest f m i q (ground (arith, c, g, n, e)))
    ]
  ]
]

-- The path info is not empty and has no question mark.
abbrev pub IsInfo : Option Bytes → Type 0
IsInfo none = Unit
IsInfo (some s) = (s ≢ []) × All (λ c. c ≢ b'?') s

unless-IsInfo :
    (b : Bool) (s : Bytes)
    → (length s == 0) ≡ b
    → All (λ c. c ≢ b'?') s
    → IsInfo (if b then none else some s)
unless-IsInfo true s e h = tt
unless-IsInfo false s e h = (λ k. ground (arith, e, k), h)

ServedBy-Backs :
    (h : Handler) (path front rest : Bytes) (f : ℕ) (m : Bytes) (i q : Option Bytes)
    → path ≡ front ++ rest
    → ServedBy h path rest f m i q
    → Backs front rest (m, info_text i ++ query_text q)
ServedBy-Backs h path front rest f m i q e s =
    let mp : Bytes × Bytes = match_path path rest in
    let b : Backs front rest mp =
      subst (λ (p : Bytes). Backs front rest (match_path p rest)) (sym e)
        (match_path-Backs front rest) in
    record {
      slashes = b.slashes;
      all_slashes = b.all_slashes;
      matched = cc (b.matched, s.matches);
      behind = cc (split-text mp.1, b.behind, s.informs, s.asks);
      bare = λ x k. b.bare x (cc (k, s.matches));
    }

decide-find :
    (t : Node Handler) (r : Request) (f : ℕ) (m : Bytes) (i q : Option Bytes)
    → decide t r ≡ serve f m i q
    → (is_served r.method ≡ true) × (find_handler t r ≡ serve f m i q)
unfolding decide
decide-find t r f m i q e = ground arith

-- A request is served by `f` with the parts `m`, `i` and `q`, where the handlers are those of `l`.
pub record Serves (l : List (Bytes × Option Handler)) (r : Request) (f : ℕ) (m : Bytes)
    (i q : Option Bytes) : Type 0 where
  pub front : Bytes
  pub rest : Bytes
  pub h : Handler
  pub found : IsLongest (registered (λ _. none) l) r.path front rest (some h)
  pub handles : h.handler ≡ some f
  pub slashes : Bytes
  pub all_slashes : All (λ c. c ≡ b'/') slashes
  pub matched : front ≡ m ++ slashes
  pub bare : (x : Bytes) → m ≢ x ++ b'/' ∷ []
  pub behind : info_text i ++ query_text q ≡ slashes ++ rest
  pub info : IsInfo i
  pub method : is_served r.method ≡ true

-- If httpHandleCommand serves a request, with handlers that were registered one by one, then
-- its method is GET, POST or HEAD, and its handler is that of the longest registered prefix of
-- the path; the matched path is this prefix without the slashes at its end, and these slashes
-- with the rest of the path are the path info, which has no question mark and is missing if it
-- would be empty, and behind it, if there is a question mark, the query behind the first one;
-- paths are C strings.
pub decide-Serves :
    (l : List (Bytes × Option Handler)) (r : Request) (f : ℕ) (m : Bytes) (i q : Option Bytes)
    → AreStrings l
    → IsString r.path
    → decide (add_all true init_trie l) r ≡ serve f m i q
    → Serves l r f m i q
unfolding decide
decide-Serves l r f m i q strings string e =
    let t = add_all true init_trie l in
    let used = decide-find t r f m i q e in
    let w = find_handler-ServedBy t r f m i q used.1 in
    let found =
      longest-IsLongest (registered (λ _. none) l) r.path w.1 (some w.0)
        (sym (get_from_trie-add_all true l r.path strings string) ∙ w.2) in
    let s = w.3 in
    let b = ServedBy-Backs w.0 r.path found.0 w.1 f m i q found.1.parts s in
    record {
      front = found.0;
      rest = w.1;
      h = w.0;
      found = found.1;
      handles = s.handles;
      slashes = b.slashes;
      all_slashes = b.all_slashes;
      matched = b.matched;
      bare = b.bare;
      behind = b.behind;
      info =
          let text : Bytes = (match_path r.path w.1).1 in
          subst IsInfo (sym s.informs) (
            unless-IsInfo (length (split_query text).0 == 0) (split_query text).0 refl
              (split_query-All text));
      method = used.0;
    }
