-- ===== src/Json/RoundTrip.antt =====
-- The escaped text against a reader of JSON strings, and the bounds of the buffer.
use shellinabox.Base.{
  ℕ, zero, suc, ◌+◌, ◌-◌, ◌*◌, ◌<◌, ◌≤◌, ◌≡◌, refl, ◌&&◌, ◌||◌, Option, none, some, [], ◌∷◌, ◌++◌,
  arith, ltb, leb, ◌==◌, if◌then◌else◌, Bytes, length, length-append, All, All-append,
}
use shellinabox.Json.{escape_byte, escaped_size, count_escaped, json_escape}

-- Every byte is below 256.
abbrev pub IsBytes : Bytes → Type 0
IsBytes = All (λ (c : ℕ). c < 256)

hex_value : ℕ → Option ℕ
hex_value c =
    if leb b'0' c && leb c b'9'
    then some (c - b'0')
    else if leb b'A' c && leb c b'F'
    then some (c - 55)
    else none

-- The character behind a backslash, for the escapes with one letter.
unquote : ℕ → Option ℕ
unquote c =
    if c == b'b'
    then some 8
    else if c == b'f'
    then some 12
    else if c == b'n'
    then some 10
    else if c == b'r'
    then some 13
    else if c == b't'
    then some 9
    else if c == b'"' || c == b'\\' || c == b'/'
    then some c
    else none

-- Where a reader of a JSON string stands: `hex n v` wants `n + 1` more digits behind the value `v`.
pub data Mode : Type 0 where
  plain : Mode
  escape : Mode
  hex : ℕ → ℕ → Mode

abbrev read_letter : Option ℕ → Option (Mode × Bytes)
read_letter none = none
read_letter (some c) = some (plain, c ∷ [])

abbrev read_digit : ℕ → ℕ → Option ℕ → Option (Mode × Bytes)
read_digit n v none = none
read_digit zero v (some d) = some (plain, (v * 16 + d) ∷ [])
read_digit (suc n) v (some d) = some (hex n (v * 16 + d), [])

pub read_byte : Mode → ℕ → Option (Mode × Bytes)
unfolding hex_value unquote
read_byte plain c =
    if c == b'\\'
    then some (escape, [])
    else if c == b'"' || ltb c 32
    then none
    else some (plain, c ∷ [])
read_byte escape c = if c == b'u' then some (hex 3 0, []) else read_letter (unquote c)
read_byte (hex n v) c = read_digit n v (hex_value c)

abbrev prepend : Bytes → Option Bytes → Option Bytes
prepend out none = none
prepend out (some cs) = some (out ++ cs)

-- A reader of the inside of a JSON string (RFC 8259, section 7), without surrogate pairs.
unfoldable pub json_unescape : Mode → Bytes → Option Bytes
unfolding read_byte
json_unescape plain [] = some []
json_unescape _ [] = none
json_unescape m (c ∷ cs) = elim (read_byte m c) [
  | none ↦ none
  | some (m', out) ↦ prepend out (json_unescape m' cs)
]

json_unescape-escape_byte :
    (c : ℕ) (rest : Bytes)
    → c < 256
    → json_unescape plain (escape_byte c ++ rest) ≡ prepend (c ∷ []) (json_unescape plain rest)
unfolding json_unescape escape_byte
json_unescape-escape_byte c rest h = ground arith

-- A JSON reader gets back exactly the bytes that the terminal sent.
pub json_unescape-json_escape :
    (buf : Bytes) → IsBytes buf → json_unescape plain (json_escape buf) ≡ some buf
unfolding json_escape
json_unescape-json_escape [] h = unfold json_unescape in refl
json_unescape-json_escape (c ∷ buf) h =
    ground (arith, json_unescape-escape_byte c (json_escape buf), json_unescape-json_escape buf)

length-escape_byte : (c : ℕ) → length (escape_byte c) ≡ escaped_size c
unfolding escape_byte escaped_size
length-escape_byte c = ground arith

-- The first loop counts exactly the bytes that the second loop writes: the buffer of
-- `count + 1` bytes is filled to its last byte by the text and its NUL.
pub length-json_escape : (buf : Bytes) → length (json_escape buf) ≡ count_escaped buf
unfolding json_escape count_escaped
length-json_escape [] = refl
length-json_escape (c ∷ buf) = omega (
  arith,
  length-append (escape_byte c) (json_escape buf),
  length-escape_byte c,
  length-json_escape buf,
)

-- A byte of ASCII that is no control character below the space.
abbrev pub IsPrintable : ℕ → Type 0
IsPrintable c = (32 ≤ c) × (c < 128)

escape_byte-All-IsPrintable : (c : ℕ) → c < 256 → All IsPrintable (escape_byte c)
unfolding escape_byte
escape_byte-All-IsPrintable c h = ground arith

-- Whatever the bytes are, the output is ASCII without control characters below the space.
pub json_escape-All-IsPrintable : (buf : Bytes) → IsBytes buf → All IsPrintable (json_escape buf)
unfolding json_escape
json_escape-All-IsPrintable [] h = tt
json_escape-All-IsPrintable (c ∷ buf) h =
    All-append _ (escape_byte c) _ (escape_byte-All-IsPrintable c h.0)
      (json_escape-All-IsPrintable buf h.1)

-- Whatever bytes go into jsonEscape, a reader of JSON strings gets back from its output exactly
-- these bytes, the first loop counts exactly the bytes that the second one writes, so that the
-- buffer of count + 1 bytes is filled to its last byte, and the output is ASCII without control
-- characters below the space.
pub json_escape_lem :
    (buf : Bytes)
    → IsBytes buf
    → (json_unescape plain (json_escape buf) ≡ some buf)
      × (length (json_escape buf) ≡ count_escaped buf)
      × All IsPrintable (json_escape buf)
json_escape_lem buf h =
    (json_unescape-json_escape buf h, length-json_escape buf, json_escape-All-IsPrintable buf h)
