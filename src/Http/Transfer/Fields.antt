-- ===== src/Http/Transfer/Fields.antt =====
-- The headers of a compressed reply, field by field.
use shellinabox.Base.{
  ℕ, zero, suc, ◌+◌, ◌-◌, ◌≤◌, ◌<◌, ◌≡◌, ◌≢◌, refl, sym, ap, ◌∙◌, true, false, ◌&&◌, List, [], ◌∷◌,
  ◌++◌, Bytes, ltb, ◌==◌, ◌==ˢ◌, if◌then◌else◌, codes, get_or, length, decimal, arith, inl, inr,
  ◌⊎◌, Bool-cases, All, length-append, ltb→lt, lt→ltb,
}
use mathlib.Core.List.{append_assoc}
use shellinabox.Terminal.{crlf}
use shellinabox.Http.Line.{to_lower}
use shellinabox.Http.Machine.{begins_nocase}
use shellinabox.Http.Head.{take-length, drop-length}
use shellinabox.Http.Transfer.{field_end, remove_from, remove_header, add_header, gzip_header}

-- Behind each newline stands a space, and none is the last byte.
abbrev pub IsFolded : Bytes → Type 0
IsFolded [] = Unit
IsFolded (c ∷ s) = ((c ≢ 10) ⊎ (get_or s 0 0 ≡ b' ')) × IsFolded s

-- A header without its last newline, in one or more lines.
abbrev pub IsField : Bytes → Type 0
IsField f = (get_or f 0 0 ≢ b' ') × IsFolded f

-- The headers, and the text behind them.
unfoldable pub text_of : List Bytes → Bytes → Bytes
text_of [] tail = tail
text_of (f ∷ fs) tail = f ++ 10 ∷ text_of fs tail

-- The headers that do not begin with a name.
unfoldable pub others : Bytes → List Bytes → List Bytes
unfolding begins_nocase
others id [] = []
others id (f ∷ fs) = let rest = others id fs in if begins_nocase id f then rest else f ∷ rest

-- A text that does not go on with a space.
abbrev IsTail : Bytes → Type 0
IsTail s = get_or s 0 0 ≢ b' '

text_of-IsTail :
    (fs : List Bytes) (tail : Bytes) → All IsField fs → IsTail tail → IsTail (text_of fs tail)
unfolding text_of
text_of-IsTail [] tail h t = t
text_of-IsTail ([] ∷ fs) tail h t = omega arith
text_of-IsTail ((c ∷ f) ∷ fs) tail h t = h.0.0

field_end-field :
    (f rest : Bytes) → IsFolded f → IsTail rest → field_end (f ++ 10 ∷ rest) ≡ (f ++ 10 ∷ [], rest)
unfolding field_end
field_end-field [] rest h t = ground (arith, t)
field_end-field (c ∷ []) rest h t = ground (arith, h.0, t)
field_end-field (c ∷ d ∷ f) rest h t = ground (arith, h.0, field_end-field (d ∷ f) rest h.1 t)

lower_newline : (p : ℕ) → p ≢ 10 → (to_lower p == to_lower 10) ≡ false
unfolding to_lower
lower_newline p h = ground (arith, h)

begins_nocase-field :
    (id f rest : Bytes)
    → All (λ p. p ≢ 10) id
    → begins_nocase id (f ++ 10 ∷ rest) ≡ begins_nocase id f
unfolding begins_nocase
begins_nocase-field [] f rest h = refl
begins_nocase-field (p ∷ id) [] rest h = rw (lower_newline p h.0) refl
begins_nocase-field (p ∷ id) (c ∷ f) rest h =
    ap (λ b. to_lower p == to_lower c && b) (begins_nocase-field id f rest h.1)

begins_nocase-length : (id f : Bytes) → begins_nocase id f ≡ true → length id ≤ length f
unfolding begins_nocase
begins_nocase-length [] f h = omega arith
begins_nocase-length (p ∷ id) [] h = absurd (ground (arith, h))
begins_nocase-length (p ∷ id) (c ∷ f) h =
    omega (arith, begins_nocase-length id f (ground (arith, h)))

length-text_of :
    (f : Bytes) (fs : List Bytes) (tail : Bytes)
    → length (text_of (f ∷ fs) tail) ≡ length f + suc (length (text_of fs tail))
unfolding text_of
length-text_of f fs tail = length-append f (10 ∷ text_of fs tail)

-- Too short a text has no header with the name.
others-short :
    (id : Bytes) (fs : List Bytes) (tail : Bytes)
    → length (text_of fs tail) < length id
    → others id fs ≡ fs
unfolding others
others-short id [] tail h = refl
others-short id (f ∷ fs) tail h = elim (Bool-cases (begins_nocase id f)) [
  | inl b ↦ absurd (omega (arith, begins_nocase-length id f b, length-text_of f fs tail, h))
  | inr b ↦ rw b (ap (◌∷◌ f) (others-short id fs tail (omega (arith, length-text_of f fs tail, h))))
]

module _ (id tail : Bytes) (name : All (λ p. p ≢ 10) id) (ends : IsTail tail)
    (short : length tail < length id) where
  remove_one :
      (fuel : ℕ) (f : Bytes) (fs : List Bytes)
      → IsField f
      → IsTail (text_of fs tail)
      → remove_from fuel id (text_of fs tail) ≡ text_of (others id fs) tail
      → remove_from (suc fuel) id (text_of (f ∷ fs) tail) ≡ text_of (others id (f ∷ fs)) tail
  unfolding remove_from text_of others
  remove_one fuel f fs h t ih =
      elim (Bool-cases (ltb (length (text_of (f ∷ fs) tail)) (length id))) [
        | inl e ↦
            rw e (ap (λ gs. text_of gs tail) (sym (others-short id (f ∷ fs) tail (ltb→lt _ _ e))))
        | inr e ↦
            let field = field_end-field f (text_of fs tail) h.1 t in
            let same = begins_nocase-field id f (text_of fs tail) name in
            elim (Bool-cases (begins_nocase id f)) [
              | inl b ↦ ground (arith, e, field, same, b, ih)
              | inr b ↦ ground (
                arith,
                e,
                field,
                same,
                b,
                ih,
                append_assoc f (10 ∷ []) (text_of (others id fs) tail),
              )
            ]
      ]

  remove_from-fields :
      (fuel : ℕ) (fs : List Bytes)
      → All IsField fs
      → length (text_of fs tail) ≤ fuel
      → remove_from fuel id (text_of fs tail) ≡ text_of (others id fs) tail
  unfolding remove_from text_of others
  remove_from-fields zero [] h l = refl
  remove_from-fields zero (f ∷ fs) h l = absurd (omega (arith, length-text_of f fs tail, l))
  remove_from-fields (suc fuel) [] h l = rw (lt→ltb _ _ short) refl
  remove_from-fields (suc fuel) (f ∷ fs) h l =
      remove_one fuel f fs h.0 (text_of-IsTail fs tail h.1 ends)
        (remove_from-fields fuel fs h.1 (omega (arith, length-text_of f fs tail, l)))

  remove_header-fields :
      (fs : List Bytes)
      → All IsField fs
      → remove_header id (text_of fs tail) ≡ text_of (others id fs) tail
  unfolding remove_header
  remove_header-fields fs h =
      ground (arith, short, remove_from-fields (length (text_of fs tail)) fs h (omega arith))

others-All : (id : Bytes) (fs : List Bytes) → All IsField fs → All IsField (others id fs)
unfolding others
others-All id [] h = tt
others-All id (f ∷ fs) h = elim (Bool-cases (begins_nocase id f)) [
  | inl b ↦ rw b (others-All id fs h.1)
  | inr b ↦ rw b (h.0, others-All id fs h.1)
]

text_of-tail : (fs : List Bytes) (tail : Bytes) → text_of fs tail ≡ text_of fs [] ++ tail
unfolding text_of
text_of-tail [] tail = refl
text_of-tail (f ∷ fs) tail =
    ap (λ s. f ++ 10 ∷ s) (text_of-tail fs tail) ∙ sym (append_assoc f (10 ∷ text_of fs []) tail)

add_header-crlf : (line a : Bytes) → add_header line (a ++ crlf) ≡ a ++ (line ++ crlf)
unfolding add_header ◌==ˢ◌
add_header-crlf line a =
    let size = length-append a crlf in
    let n : length (a ++ crlf) - 2 ≡ length a = omega (arith, size) in
    ground (arith, size, n, take-length a crlf, drop-length a crlf)

-- The headers that a compressed reply keeps.
abbrev pub kept : List Bytes → List Bytes
kept fs = others (codes "content-encoding:") (others (codes "content-length:") fs)

-- If the headers of a reply are fields of one or more lines, each with its newline, of which
-- those that go on begin with a space, and the empty line stands behind them, then
-- httpTransfer, when it has compressed the body, keeps exactly the fields that begin with
-- neither content-length: nor content-encoding:, in any case of letters and in their order, and
-- behind them come the new Content-Length, Content-Encoding: gzip, and the empty line.
pub gzip_header-fields :
    (len : ℕ) (fs : List Bytes)
    → All IsField fs
    → gzip_header len (text_of fs crlf)
      ≡ (text_of (kept fs) [] ++ (codes "Content-Length: " ++ (decimal len ++ crlf)))
        ++ ((codes "Content-Encoding: gzip" ++ crlf) ++ crlf)
unfolding gzip_header
gzip_header-fields len fs h =
    let cl : Bytes = codes "Content-Length: " ++ (decimal len ++ crlf) in
    let ce : Bytes = codes "Content-Encoding: gzip" ++ crlf in
    let once = others (codes "content-length:") fs in
    ap (λ s. add_header ce (add_header cl (remove_header (codes "content-encoding:") s)))
      (remove_header-fields (codes "content-length:") crlf (omega arith) (omega arith) (omega arith)
        fs h)
    ∙ ap (λ s. add_header ce (add_header cl s))
        (remove_header-fields (codes "content-encoding:") crlf (omega arith) (omega arith)
            (omega arith) once (others-All (codes "content-length:") fs h)
          ∙ text_of-tail (kept fs) crlf)
    ∙ ap (add_header ce) (
        add_header-crlf cl (text_of (kept fs) [])
        ∙ sym (append_assoc (text_of (kept fs) []) cl crlf))
    ∙ add_header-crlf ce (text_of (kept fs) [] ++ cl)
