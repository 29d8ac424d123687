-- ===== src/Json.antt =====
-- `jsonEscape` of shellinabox/shellinaboxd.c: the text of a terminal as a JSON string's body.
-- The C code runs over the buffer twice: once to count the bytes that it needs and once to write
-- them. A byte is a number below 256.
pub mod RoundTrip
use shellinabox.Base.{
  ℕ, ◌+◌, ◌/◌, ◌%◌, Bool, true, false, ◌||◌, List, [], ◌∷◌, ◌++◌, ltb, ◌==◌, if◌then◌else◌, Bytes,
}

-- The escape letter of the five control characters that have one.
unfoldable pub short_escape : ℕ → ℕ
short_escape ch =
    if ch == 8
    then b'b'
    else if ch == 12
    then b'f'
    else if ch == 10
    then b'n'
    else if ch == 13
    then b'r'
    else if ch == 9
    then b't'
    else 0

unfoldable pub has_short_escape : ℕ → Bool
has_short_escape ch = ch == 8 || ch == 12 || ch == 10 || ch == 13 || ch == 9

unfoldable pub is_quoted : ℕ → Bool
is_quoted ch = ch == b'"' || ch == b'\\' || ch == b'/'

-- `hexDigit[n]`
unfoldable pub hex_digit : ℕ → ℕ
hex_digit n = if ltb n 10 then b'0' + n else 55 + n

-- What the first loop adds to `count` for one byte.
unfoldable pub escaped_size : ℕ → ℕ
unfolding has_short_escape is_quoted
escaped_size ch =
    if ltb ch b' '
    then (if has_short_escape ch then 2 else 6)
    else if is_quoted ch
    then 2
    else if ltb 0x7f ch
    then 6
    else 1

-- The label `unicode`, behind the backslash.
unfoldable pub unicode_escape : ℕ → Bytes
unfolding hex_digit
unicode_escape ch = b'u' ∷ b'0' ∷ b'0' ∷ hex_digit (ch / 16) ∷ hex_digit (ch % 16) ∷ []

-- What the second loop writes for one byte.
unfoldable pub escape_byte : ℕ → Bytes
unfolding short_escape has_short_escape is_quoted unicode_escape
escape_byte ch =
    if ltb ch b' '
    then b'\\' ∷ (if has_short_escape ch then short_escape ch ∷ [] else unicode_escape ch)
    else if is_quoted ch
    then b'\\' ∷ ch ∷ []
    else if ltb 0x7f ch
    then b'\\' ∷ unicode_escape ch
    else ch ∷ []

-- The first loop: the size of the buffer to allocate, less the NUL.
unfoldable pub count_escaped : Bytes → ℕ
unfolding escaped_size
count_escaped [] = 0
count_escaped (ch ∷ buf) = escaped_size ch + count_escaped buf

-- The second loop.
unfoldable pub json_escape : Bytes → Bytes
unfolding escape_byte
json_escape [] = []
json_escape (ch ∷ buf) = escape_byte ch ++ json_escape buf
