-- ===== src/Url/Unescape.antt =====
-- `urlUnescape` against the encodings of a text.
use shellinabox.Base.{ℕ, ◌+◌, ◌*◌, ◌≤◌, ◌<◌, ◌≡◌, ◌≢◌, refl, ap, true, [], ◌∷◌, Bytes, arith}
use shellinabox.Url.{
  clear_case, is_digit, is_hex, hex_value, unescape_byte, unescape_from, url_unescape,
}

-- `d` is a hexadecimal digit of value `n`.
pub data IsHexDigit : ℕ → ℕ → Type 0 where
  decimal : (n : ℕ) → n < 10 → IsHexDigit n (b'0' + n)
  upper : (n : ℕ) → 10 ≤ n → n < 16 → IsHexDigit n (55 + n)
  lower : (n : ℕ) → 10 ≤ n → n < 16 → IsHexDigit n (87 + n)

-- `t` is an encoding of the text `s`: a byte may stand for itself, and must be escaped if it is a
-- percent or a plus sign; a space may be a plus sign.
pub data Encodes : Bytes → Bytes → Type 0 where
  empty : Encodes [] []
  itself : (c : ℕ) (s t : Bytes) → c ≢ b'%' → c ≢ b'+' → Encodes s t → Encodes (c ∷ s) (c ∷ t)
  plus : (s t : Bytes) → Encodes s t → Encodes (b' ' ∷ s) (b'+' ∷ t)
  escape :
      (h l d e : ℕ) (s t : Bytes)
      → IsHexDigit h d
      → IsHexDigit l e
      → Encodes s t
      → Encodes ((h * 16 + l) ∷ s) (b'%' ∷ d ∷ e ∷ t)

IsHexDigit-read : (n d : ℕ) → IsHexDigit n d → (is_hex d ≡ true) × (hex_value d ≡ n)
unfolding is_hex hex_value is_digit clear_case
IsHexDigit-read n d (decimal _ h) = ground arith
IsHexDigit-read n d (upper _ h k) = ground arith
IsHexDigit-read n d (lower _ h k) = ground arith

-- From every encoding of a text urlUnescape reads the text back, where each byte but % and +
-- may stand for itself, each may be two hexadecimal digits of either case behind %, and a space
-- may be +.
pub url_unescape-Encodes : (s t : Bytes) → Encodes s t → url_unescape t ≡ s
unfolding url_unescape unescape_from unescape_byte
url_unescape-Encodes s t empty = refl
url_unescape-Encodes s t (itself c s' t' h k e) = ground (arith, h, k, url_unescape-Encodes s' t' e)
url_unescape-Encodes s t (plus s' t' e) = ap (◌∷◌ b' ') (url_unescape-Encodes s' t' e)
url_unescape-Encodes s t (escape h l d e s' t' hd he r) =
    ground (arith, IsHexDigit-read h d hd, IsHexDigit-read l e he, url_unescape-Encodes s' t' r)
