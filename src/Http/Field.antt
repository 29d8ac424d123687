-- ===== src/Http/Field.antt =====
-- A header line, as a client writes it.
use shellinabox.Base.{
  ℕ, ◌+◌, ◌<◌, ◌≡◌, ◌≢◌, refl, ap, ◌∙◌, none, some, [], ◌∷◌, ◌++◌, Bytes, length, take, drop, arith,
  ◌⊎◌, All, length-append,
}
use mathlib.Core.List.{append_assoc}
use shellinabox.Url.{c_string}
use shellinabox.Http.Line.{
  Marks, is_space, mark, marks_from, marks, or_first, to_lower, lower, trim, drop_cr, header_text,
  field_at, parse_field,
}
use shellinabox.Http.Head.{plus_zero, plus_one, take-length, drop-length}

-- A byte of a name: no colon and no NUL.
abbrev pub IsNameByte : ℕ → Type 0
IsNameByte c = (c ≢ b':') × (c ≢ 0)

abbrev pub IsBlank : ℕ → Type 0
IsBlank c = (c ≡ b' ') ⊎ (c ≡ 9)

abbrev pub IsNoBlank : Bytes → Type 0
IsNoBlank [] = Unit
IsNoBlank (c ∷ s) = (c ≢ b' ') × (c ≢ 9)

-- A header as a client writes it: a name, a colon, blanks, the value and a carriage return.
unfoldable pub field_line : Bytes → Bytes → Bytes → Bytes
field_line k blanks v = k ++ (b':' ∷ (blanks ++ (v ++ 13 ∷ [])))

mark-name : (c i : ℕ) (m : Marks) → c ≢ b':' → (mark c i m).colon ≡ m.colon
unfolding mark is_space
mark-name c i m h = ground (arith, h)

marks_from-name :
    (i : ℕ) (k s : Bytes) (m : Marks)
    → All IsNameByte k
    → (n : Marks) × (marks_from i (k ++ s) m ≡ marks_from (i + length k) s n) × (n.colon ≡ m.colon)
unfolding marks_from
marks_from-name i [] s m h = (m, ap (λ j. marks_from j s m) (plus_zero i), refl)
marks_from-name i (c ∷ k) s m h =
    let r = marks_from-name (i + 1) k s (mark c i m) h.1 in
    (r.0, r.1 ∙ ap (λ j. marks_from j s r.0) (plus_one i (length k)), r.2 ∙ mark-name c i m h.0.0)

mark-kept : (c i j : ℕ) (m : Marks) → m.colon ≡ some j → (mark c i m).colon ≡ some j
unfolding mark is_space or_first
mark-kept c i j m e = ground (arith, e)

marks_from-kept :
    (i j : ℕ) (s : Bytes) (m : Marks) → m.colon ≡ some j → (marks_from i s m).colon ≡ some j
unfolding marks_from
marks_from-kept i j [] m e = e
marks_from-kept i j (c ∷ s) m e = marks_from-kept (i + 1) j s (mark c i m) (mark-kept c i j m e)

mark-colon : (i : ℕ) (m : Marks) → m.colon ≡ none → (mark b':' i m).colon ≡ some i
unfolding mark or_first
mark-colon i m e = ground (arith, e)

trim-IsBlank : (blanks s : Bytes) → All IsBlank blanks → trim (blanks ++ s) ≡ trim s
unfolding trim is_space
trim-IsBlank [] s h = refl
trim-IsBlank (c ∷ blanks) s h = ground (arith, h.0, trim-IsBlank blanks s h.1)

trim-IsNoBlank : (v : Bytes) → IsNoBlank v → trim (v ++ 13 ∷ []) ≡ v ++ 13 ∷ []
unfolding trim is_space
trim-IsNoBlank [] h = refl
trim-IsNoBlank (c ∷ v) h = ground (arith, h)

drop_cr-append : (v : Bytes) → drop_cr (v ++ 13 ∷ []) ≡ v
unfolding drop_cr
drop_cr-append [] = refl
drop_cr-append (c ∷ []) = refl
drop_cr-append (c ∷ d ∷ v) = ap (◌∷◌ c) (drop_cr-append (d ∷ v))

c_string-same : (s : Bytes) → All (λ c. c ≢ 0) s → c_string s ≡ s
unfolding c_string
c_string-same [] h = refl
c_string-same (c ∷ s) h = ground (arith, h.0, c_string-same s h.1)

lower-nonzero : (c : ℕ) → c ≢ 0 → to_lower c ≢ 0
unfolding to_lower
lower-nonzero c h = ground (arith, h)

size_one : (k : Bytes) → length k + 1 ≡ length (k ++ b':' ∷ [])
size_one k = omega (arith, length-append k (b':' ∷ []))

lower-clean : (k : Bytes) → All IsNameByte k → All (λ c. c ≢ 0) (lower k)
unfolding lower to_lower
lower-clean [] h = tt
lower-clean (c ∷ k) h = (lower-nonzero c h.0.1, lower-clean k h.1)

module _ (k blanks v : Bytes) (hk : All IsNameByte k) where
  marks-field_line : (marks (field_line k blanks v)).colon ≡ some (length k)
  unfolding marks field_line
  marks-field_line =
      let start : Marks = record { colon = none; first_space = none; last_space = none } in
      let rest = blanks ++ (v ++ 13 ∷ []) in
      let a = marks_from-name 0 k (b':' ∷ rest) start hk in
      ap (λ (x : Marks). x.colon) a.1
      ∙ marks_from-kept (0 + length k + 1) (0 + length k) rest (mark b':' (0 + length k) a.0)
          (mark-colon (0 + length k) a.0 a.2)
      ∙ ap some (omega arith)

  drop-field_line : drop (length k + 1) (field_line k blanks v) ≡ blanks ++ (v ++ 13 ∷ [])
  unfolding field_line
  drop-field_line = cc (
    drop-length (k ++ b':' ∷ []) (blanks ++ (v ++ 13 ∷ [])),
    append_assoc k (b':' ∷ []) (blanks ++ (v ++ 13 ∷ [])),
    ap (λ n. drop n (k ++ (b':' ∷ (blanks ++ (v ++ 13 ∷ []))))) (size_one k),
  )

  take-name : take (length k) (field_line k blanks v) ≡ k
  unfolding field_line
  take-name = take-length k _

  field_at-field_line :
      0 < length k
      → All IsBlank blanks
      → IsNoBlank v
      → All (λ c. c ≢ 0) v
      → field_at (some (length k)) (field_line k blanks v) ≡ some (lower k, v)
  unfolding field_at header_text
  field_at-field_line hl hb hn hv =
      rw
        (
          drop-field_line,
          take-name,
          c_string-same (lower k) (lower-clean k hk),
          trim-IsBlank blanks (v ++ 13 ∷ []) hb,
          trim-IsNoBlank v hn,
          drop_cr-append v,
          c_string-same v hv,
        )
        (ground (arith, hl))

  -- From a header line of a name, a colon, blanks, a value and a carriage return,
  -- httpParseHeaders reads the name in lower case and the value, if the name is not empty and
  -- has no colon or NUL, and the value has no NUL and does not begin with a blank.
  pub parse_field-field_line :
      0 < length k
      → All IsBlank blanks
      → IsNoBlank v
      → All (λ c. c ≢ 0) v
      → parse_field (field_line k blanks v) ≡ some (lower k, v)
  unfolding parse_field
  parse_field-field_line hl hb hn hv =
      ap (λ c. field_at c (field_line k blanks v)) marks-field_line
      ∙ field_at-field_line hl hb hn hv
