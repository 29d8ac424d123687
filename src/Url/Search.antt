-- ===== src/Url/Search.antt =====
-- The search for a text in a buffer, with which multipart bodies are read.
use shellinabox.Base.{
  ℕ, zero, suc, ◌-◌, ◌≡◌, true, Option, none, some, [], ◌∷◌, Bytes, ltb, ◌==◌, ◌==ˢ◌, if◌then◌else◌,
  length, take, drop, get_or, Leaves, Leaves-bind, Leaves-if,
}

-- `memchr`: what stands from the byte on, if it is one of the first `n`.
unfoldable pub memchr : ℕ → ℕ → Bytes → Option Bytes
memchr ch zero buf = none
memchr ch (suc n) [] = none
memchr ch (suc n) (b ∷ buf) = if b == ch then some (b ∷ buf) else memchr ch n buf

-- Where the text may begin: anywhere but at the last place, unless it is the only one.
unfoldable pub candidate : Bytes → Bytes → Option Bytes
unfolding memchr
candidate s buf =
    if ltb (length s) (length buf)
    then memchr (get_or s 0 0) (length buf - length s) buf
    else some buf

unfoldable pub search : ℕ → Bytes → Bytes → Option Bytes
unfolding candidate
search zero s buf = none
search (suc rounds) s buf = if ltb (length buf) (length s) then none else elim (candidate s buf) [
  | none ↦ none
  | some first ↦ if take (length s) first ==ˢ s then some first else search rounds s (drop 1 first)
]

-- `urlMemstr`: the buffer from the text on. Each round takes a byte.
unfoldable pub url_memstr : Bytes → Bytes → Option Bytes
unfolding search
url_memstr buf s = if length s == 0 then some buf else search (suc (length buf)) s buf

search-Leaves :
    (rounds : ℕ) (s buf : Bytes)
    → Leaves (λ r. (take (length s) r ==ˢ s) ≡ true) (search rounds s buf)
unfolding search
search-Leaves zero s buf = tt
search-Leaves (suc rounds) s buf =
    let P = λ (r : Bytes). (take (length s) r ==ˢ s) ≡ true in
    Leaves-if P (ltb (length buf) (length s)) _ _ (λ e. tt)
      (λ e. Leaves-bind P (candidate s buf) _ (λ first f.
        Leaves-if P (take (length s) first ==ˢ s) _ _ (λ g. g)
          (λ g. search-Leaves rounds s (drop 1 first))))
