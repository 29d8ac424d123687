-- ===== src/Http/Head.antt =====
-- The request line, as a client writes it.
use shellinabox.Base.{
  ℕ, suc, ◌+◌, ◌-◌, ◌<◌, ◌≡◌, ◌≢◌, refl, ap, ◌∙◌, true, none, some, [], ◌∷◌, ◌++◌, Bytes, length,
  take, drop, get_or, arith, All, length-append,
}
use mathlib.Core.List.{append_assoc}
use shellinabox.Url.{c_string}
use shellinabox.Http.Line.{
  Marks, is_space, mark, marks_from, marks, to_upper, upper, trim, until_cr, is_version,
  parse_between, parse_marked, parse_command,
}

-- A byte of a word: no space, tab, NUL or line end.
abbrev pub IsWordByte : ℕ → Type 0
IsWordByte c = (c ≢ b' ') × (c ≢ 9) × (c ≢ 0) × (c ≢ 13) × (c ≢ 10)

abbrev IsWord : Bytes → Type 0
IsWord = All IsWordByte

pub plus_zero : (i : ℕ) → i ≡ i + 0
plus_zero i = omega arith

pub plus_one : (i n : ℕ) → i + 1 + n ≡ i + suc n
plus_one i n = omega arith

-- The marks of spaces behind a part without any.
marks_from-word :
    (i : ℕ) (w s : Bytes) (m : Marks)
    → IsWord w
    → (n : Marks) × (marks_from i (w ++ s) m ≡ marks_from (i + length w) s n)
      × (n.first_space ≡ m.first_space)
      × (n.last_space ≡ m.last_space)
unfolding marks_from mark is_space
marks_from-word i [] s m h = (m, ap (λ j. marks_from j s m) (plus_zero i), refl, refl)
marks_from-word i (c ∷ w) s m h =
    let r = marks_from-word (i + 1) w s (mark c i m) h.1 in
    (
      r.0,
      r.1 ∙ ap (λ j. marks_from j s r.0) (plus_one i (length w)),
      ground (arith, h.0, r.2),
      ground (arith, h.0, r.3),
    )

pub take-length : (a b : Bytes) → take (length a) (a ++ b) ≡ a
take-length [] b = refl
take-length (c ∷ a) b = ap (◌∷◌ c) (take-length a b)

pub drop-length : (a b : Bytes) → drop (length a) (a ++ b) ≡ b
drop-length [] b = refl
drop-length (c ∷ a) b = drop-length a b

upper-IsWordByte : (c : ℕ) → IsWordByte c → IsWordByte (to_upper c)
unfolding to_upper
upper-IsWordByte c h = ground arith

minus : (a b : ℕ) → a + 1 + b - a ≡ suc b
minus a b = omega arith

sizes : (m p : Bytes) → length m + 1 + length p ≡ length (m ++ b' ' ∷ p)
sizes m p = omega (arith, length-append m (b' ' ∷ p))

upper-IsWord : (w : Bytes) → IsWord w → IsWord (upper w)
unfolding upper to_upper
upper-IsWord [] h = tt
upper-IsWord (c ∷ w) h = (upper-IsWordByte c h.0, upper-IsWord w h.1)

trim-IsWord : (w : Bytes) → IsWord w → trim w ≡ w
unfolding trim is_space
trim-IsWord [] h = refl
trim-IsWord (c ∷ w) h = ground (arith, h.0)

c_string-IsWord : (w : Bytes) → IsWord w → c_string w ≡ w
unfolding c_string
c_string-IsWord [] h = refl
c_string-IsWord (c ∷ w) h = ground (arith, h.0, c_string-IsWord w h.1)

until_cr-IsWord : (w s : Bytes) → IsWord w → until_cr (w ++ 13 ∷ s) ≡ w
unfolding until_cr
until_cr-IsWord [] s h = refl
until_cr-IsWord (c ∷ w) s h = ground (arith, h.0, until_cr-IsWord w s h.1)

-- The line that a client sends, with its carriage return.
unfoldable pub command_line : Bytes → Bytes → Bytes → Bytes
command_line m p v = m ++ (b' ' ∷ (p ++ (b' ' ∷ (v ++ 13 ∷ []))))

marks_from-space :
    (i : ℕ) (s : Bytes) (m : Marks)
    → marks_from i (b' ' ∷ s) m ≡ marks_from (i + 1) s (mark b' ' i m)
unfolding marks_from
marks_from-space i s m = refl

mark-first : (i : ℕ) (m : Marks) → m.first_space ≡ none → (mark b' ' i m).first_space ≡ some i
unfolding mark is_space
mark-first i m e = ground (arith, e)

mark-last :
    (i j : ℕ) (m : Marks)
    → m.first_space ≡ some j
    → ((mark b' ' i m).first_space ≡ some j) × ((mark b' ' i m).last_space ≡ some i)
unfolding mark is_space
mark-last i j m e = ground (arith, e)

marks_from-cr : (i : ℕ) (m : Marks) → marks_from i (13 ∷ []) m ≡ m
unfolding marks_from mark is_space
marks_from-cr i m = refl

trim_space : (w : Bytes) → IsWord w → trim (b' ' ∷ w) ≡ w
unfolding trim is_space
trim_space w h = trim-IsWord w h

until_cr-space : (w : Bytes) → IsWord w → until_cr (b' ' ∷ (w ++ 13 ∷ [])) ≡ b' ' ∷ w
unfolding until_cr
until_cr-space w h = ap (◌∷◌ b' ') (until_cr-IsWord w [] h)

upper-space : (w : Bytes) → upper (b' ' ∷ w) ≡ b' ' ∷ upper w
unfolding upper to_upper
upper-space w = refl

module _ (m p v : Bytes) (wm : IsWord m) (wp : IsWord p) (wv : IsWord v) where
  marks-command_line :
      ((marks (command_line m p v)).first_space ≡ some (length m))
      × ((marks (command_line m p v)).last_space ≡ some (length m + 1 + length p))
  unfolding marks command_line
  marks-command_line =
      let start : Marks = record { colon = none; first_space = none; last_space = none } in
      let a = marks_from-word 0 m (b' ' ∷ (p ++ (b' ' ∷ (v ++ 13 ∷ [])))) start wm in
      let i = 0 + length m in
      let n1 = mark b' ' i a.0 in
      let b = marks_from-word (i + 1) p (b' ' ∷ (v ++ 13 ∷ [])) n1 wp in
      let j = i + 1 + length p in
      let n2 = mark b' ' j b.0 in
      let c = marks_from-word (j + 1) v (13 ∷ []) n2 wv in
      let whole =
        a.1
        ∙ marks_from-space i (p ++ (b' ' ∷ (v ++ 13 ∷ []))) a.0
        ∙ b.1
        ∙ marks_from-space j (v ++ 13 ∷ []) b.0
        ∙ c.1
        ∙ marks_from-cr (j + 1 + length v) c.0 in
      let f1 = mark-first i a.0 a.2 in
      let l1 = mark-last j i b.0 (b.2 ∙ f1) in
      (
        ap (λ (x : Marks). x.first_space) whole ∙ c.2 ∙ l1.0 ∙ ap some (omega arith),
        ap (λ (x : Marks). x.last_space) whole ∙ c.3 ∙ l1.1 ∙ ap some (omega arith),
      )

  take-method : take (length m) (command_line m p v) ≡ m
  unfolding command_line
  take-method = take-length m _

  take-path :
      take (length m + 1 + length p - length m) (drop (length m) (command_line m p v)) ≡ b' ' ∷ p
  unfolding command_line
  take-path =
      rw (drop-length m (b' ' ∷ (p ++ (b' ' ∷ (v ++ 13 ∷ [])))), minus (length m) (length p))
        (ap (◌∷◌ b' ') (take-length p _))

  drop-version : drop (length m + 1 + length p) (command_line m p v) ≡ b' ' ∷ (v ++ 13 ∷ [])
  unfolding command_line
  drop-version = cc (
    drop-length (m ++ b' ' ∷ p) (b' ' ∷ (v ++ 13 ∷ [])),
    append_assoc m (b' ' ∷ p) (b' ' ∷ (v ++ 13 ∷ [])),
    ap (λ n. drop n (m ++ (b' ' ∷ (p ++ (b' ' ∷ (v ++ 13 ∷ [])))))) (sizes m p),
  )

  parse_between-command_line :
      0 < length m
      → get_or p 0 0 ≡ b'/'
      → is_version (upper v) ≡ true
      → parse_between (length m) (length m + 1 + length p) (command_line m p v)
        ≡ some (record { method = upper m; path = p; version = upper v })
  unfolding parse_between
  parse_between-command_line hm hp hv =
      let e1 = trim_space p wp in
      let e2 = trim_space (upper v) (upper-IsWord v wv) in
      let e3 = c_string-IsWord (upper m) (upper-IsWord m wm) in
      let e4 = c_string-IsWord (upper v) (upper-IsWord v wv) in
      rw
        (
          take-method,
          take-path,
          drop-version,
          until_cr-space v wv,
          upper-space v,
          e1,
          e2,
          c_string-IsWord p wp,
          e3,
          e4,
          hv,
        )
        (ground (arith, hm, hp))

  -- From a line that is put together of a method, a path and a version, none of which has a
  -- space, a tab, a line end or NUL, with single spaces between them and a carriage return
  -- behind them, httpParseCommand reads the three parts back, method and version in upper case,
  -- if the method is not empty, the path begins with a slash and the version is one.
  pub parse_command-command_line :
      0 < length m
      → get_or p 0 0 ≡ b'/'
      → is_version (upper v) ≡ true
      → parse_command (command_line m p v)
        ≡ some (record { method = upper m; path = p; version = upper v })
  unfolding parse_command
  parse_command-command_line hm hp hv =
      ap (λ f. parse_marked f (marks (command_line m p v)).last_space (command_line m p v))
        marks-command_line.0
      ∙ ap (λ l. parse_marked (some (length m)) l (command_line m p v)) marks-command_line.1
      ∙ parse_between-command_line hm hp hv
