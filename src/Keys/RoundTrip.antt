-- ===== src/Keys/RoundTrip.antt =====
-- What the browser encodes arrives at the terminal.
use shellinabox.Base.{
  ℕ, ◌+◌, ◌/◌, ◌%◌, ◌≤◌, ◌<◌, ◌≡◌, refl, Bool, true, false, [], ◌∷◌, ◌++◌, ltb, if◌then◌else◌,
  Bytes, length, arith, All, Bool-cases, inl, inr,
}
use shellinabox.Keys.{is_no_digit, digit_value, key_codes}

-- A digit in one of the two cases.
unfoldable pub digit_of : Bool → ℕ → ℕ
digit_of lower n = if ltb n 10 then b'0' + n else if lower then 87 + n else 55 + n

-- The hexadecimal text of some bytes, in one of the two cases.
unfoldable pub hex_text : Bool → Bytes → Bytes
unfolding digit_of
hex_text lower [] = []
hex_text lower (b ∷ bs) = digit_of lower (b / 16) ∷ digit_of lower (b % 16) ∷ hex_text lower bs

digit_value-digit_of :
    (lower : Bool) (n : ℕ)
    → n < 16
    → (is_no_digit (digit_of lower n) ≡ false) × (digit_value (digit_of lower n) ≡ n)
unfolding is_no_digit digit_value digit_of
digit_value-digit_of true n h = ground arith
digit_value-digit_of false n h = ground arith

-- A text whose first byte, if any, is no digit
abbrev pub Stops : Bytes → Type 0
Stops [] = Unit
Stops (c ∷ s) = is_no_digit c ≡ true

stopped : (s : Bytes) → Stops s → key_codes s ≡ []
unfolding key_codes
stopped [] h = refl
stopped (c ∷ []) h = refl
stopped (c ∷ d ∷ s) h = ground (arith, h)

-- From the hexadecimal text of some bytes, in digits of either case, and up to anything that is
-- no digit behind it, dataHandler decodes exactly these bytes.
pub key_codes-hex_text :
    (lower : Bool) (bs s : Bytes)
    → All (λ b. b < 256) bs
    → Stops s
    → key_codes (hex_text lower bs ++ s) ≡ bs
unfolding key_codes hex_text
key_codes-hex_text lower [] s h k = stopped s k
key_codes-hex_text lower (b ∷ bs) s h k = ground (
  arith,
  digit_value-digit_of lower (b / 16),
  digit_value-digit_of lower (b % 16),
  key_codes-hex_text lower bs s h.1 k,
)

-- Whatever text keys is, dataHandler decodes at most strlen(keys)/2 bytes of it, for which it
-- allocates memory.
pub length-key_codes : (keys : Bytes) → length (key_codes keys) ≤ length keys / 2
unfolding key_codes
length-key_codes [] = omega arith
length-key_codes (c ∷ []) = omega arith
length-key_codes (c ∷ d ∷ keys) = elim (Bool-cases (is_no_digit c)) [
  | inl e ↦ rw e (omega arith)
  | inr e ↦ elim (Bool-cases (is_no_digit d)) [
    | inl f ↦ rw (e, f) (omega arith)
    | inr f ↦ rw (e, f) (omega (arith, length-key_codes keys))
  ]
]

-- From the hexadecimal text of some bytes, in digits of either case, and up to anything that is
-- no digit behind it, dataHandler decodes exactly these bytes; of any text keys it decodes at
-- most strlen(keys)/2 bytes, for which it allocates memory.
pub key_codes_lem :
    (lower : Bool) (bs s keys : Bytes)
    → All (λ b. b < 256) bs
    → Stops s
    → (key_codes (hex_text lower bs ++ s) ≡ bs) × (length (key_codes keys) ≤ length keys / 2)
key_codes_lem lower bs s keys h k = (key_codes-hex_text lower bs s h k, length-key_codes keys)
