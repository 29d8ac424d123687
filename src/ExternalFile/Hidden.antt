-- ===== src/ExternalFile/Hidden.antt =====
-- Which names of files are refused.
use shellinabox.Base.{
  ℕ, zero, suc, ◌≡◌, refl, ap, ◌∙◌, false, some, [], ◌∷◌, Bytes, ◌==◌, get_or, length, drop, arith,
  inl, inr, Bool-cases, Option-cases,
}
use shellinabox.ExternalFile.{skip_slashes, find_char, is_hidden_from, is_hidden}

find_char-head : (ch : ℕ) (s r : Bytes) → find_char ch s ≡ some r → get_or r 0 0 ≡ ch
unfolding find_char
find_char-head ch [] r e = absurd (ground (arith, e))
find_char-head ch (c ∷ s) r e = elim (Bool-cases (c == ch)) [
  | inl h ↦ ground (arith, h, e)
  | inr h ↦ find_char-head ch s r (ground (arith, h, e))
]

-- Behind the first round the loop stands at a slash, and never at what is behind it.
is_hidden_from-slash :
    (fuel : ℕ) (ptr : Bytes) → get_or ptr 0 0 ≡ b'/' → is_hidden_from fuel ptr ≡ false
unfolding is_hidden_from
is_hidden_from-slash zero ptr h = refl
is_hidden_from-slash (suc fuel) ptr h = elim (Option-cases (find_char b'/' (drop 1 ptr))) [
  | inl n ↦ ground (arith, h, n)
  | inr (r, k) ↦
      ground (arith, h, k, is_hidden_from-slash fuel r (find_char-head b'/' (drop 1 ptr) r k))
]

pub is_hidden-first : (info : Bytes) → is_hidden info ≡ (get_or (skip_slashes info) 0 0 == b'.')
unfolding is_hidden is_hidden_from
is_hidden-first [] = refl
is_hidden-first (c ∷ info) =
    let ptr = skip_slashes (c ∷ info) in
    elim (Bool-cases (get_or ptr 0 0 == b'.')) [
      | inl h ↦ ground (arith, h)
      | inr h ↦ elim (Option-cases (find_char b'/' (drop 1 ptr))) [
        | inl n ↦ ground (arith, h, n)
        | inr (r, k) ↦ ground (
          arith,
          h,
          k,
          is_hidden_from-slash (length ptr) r (find_char-head b'/' (drop 1 ptr) r k),
        )
      ]
    ]

pub skip_slashes-head : (s : Bytes) → (get_or (skip_slashes s) 0 0 == b'/') ≡ false
unfolding skip_slashes
skip_slashes-head [] = refl
skip_slashes-head (c ∷ s) = elim (Bool-cases (c == b'/')) [
  | inl e ↦ rw e (skip_slashes-head s)
  | inr e ↦ rw e e
]

pub skip_slashes-kept : (s : Bytes) → (get_or s 0 0 == b'/') ≡ false → skip_slashes s ≡ s
unfolding skip_slashes
skip_slashes-kept [] h = refl
skip_slashes-kept (c ∷ s) h = ground (arith, h)

-- A path info is refused by its first byte behind the slashes.
pub is_hidden-skip_slashes :
    (path_info : Bytes)
    → is_hidden (skip_slashes path_info) ≡ (get_or (skip_slashes path_info) 0 0 == b'.')
is_hidden-skip_slashes path_info =
    is_hidden-first (skip_slashes path_info)
    ∙ ap (λ s. get_or s 0 0 == b'.')
        (skip_slashes-kept (skip_slashes path_info) (skip_slashes-head path_info))
