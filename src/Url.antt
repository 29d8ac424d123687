-- ===== src/Url.antt =====
-- libhttp/url.c: decoding of URLs, query strings and header fields. A C string is the list of its
-- bytes; a parser is the list of the pairs that it adds to the hash map, in order, a value being
-- `none` for NULL.
pub mod Search
pub mod Unescape
pub mod Query
pub mod Header
use shellinabox.Base.{
  ℕ, zero, suc, ◌+◌, ◌-◌, ◌*◌, ◌/◌, ◌%◌, Bool, true, false, ◌&&◌, ◌||◌, Option, none, some, List,
  [], ◌∷◌, ◌++◌, ltb, leb, ◌==◌, if◌then◌else◌, Bytes, length, drop, get_or, drop, get_or,
}
use shellinabox.Trie.{char_at, tail_of}

-- `c & ~0x20`
unfoldable pub clear_case : ℕ → ℕ
clear_case c = if (c / 32) % 2 == 1 then c - 32 else c

unfoldable pub is_digit : ℕ → Bool
is_digit c = leb b'0' c && leb c b'9'

-- The test of `c1` and of `c2`.
unfoldable pub is_hex : ℕ → Bool
unfolding clear_case is_digit
is_hex c = is_digit c || leb b'A' (clear_case c) && leb (clear_case c) b'F'

-- `c1 - (c1 > '9' ? 'A' - 10 : '0')` behind the test, which has cleared the bit of a letter's case.
unfoldable pub hex_value : ℕ → ℕ
unfolding clear_case is_digit
hex_value c = if is_digit c then c - b'0' else clear_case c - 55

-- One round of the loop of `urlUnescape`: the byte `ch` with `u` behind it gives the byte that is
-- written, and the number of bytes of `u` that are passed over.
unfoldable pub unescape_byte : ℕ → Bytes → ℕ × ℕ
unfolding is_hex hex_value char_at tail_of
unescape_byte ch u =
    if ch == b'+'
    then (b' ', 0)
    else if ch == b'%'
    then (if is_hex (char_at u)
        then (if is_hex (char_at (tail_of u))
            then (hex_value (char_at u) * 16 + hex_value (char_at (tail_of u)), 2)
            else (hex_value (char_at u), 1))
        else (b'%', 0))
    else (ch, 0)

-- The loop, with `skip` bytes to pass over.
unfoldable pub unescape_from : ℕ → Bytes → Bytes
unfolding unescape_byte
unescape_from skip [] = []
unescape_from (suc skip) (ch ∷ u) = unescape_from skip u
unescape_from zero (ch ∷ u) = let out = unescape_byte ch u in out.0 ∷ unescape_from out.1 u

-- `urlUnescape`, but for its warnings.
unfoldable pub url_unescape : Bytes → Bytes
unfolding unescape_from
url_unescape s = unescape_from 0 s

-- What is read as a C string: the bytes before the first NUL.
unfoldable pub c_string : Bytes → Bytes
c_string [] = []
c_string (c ∷ s) = let rest = c_string s in if c == 0 then [] else c ∷ rest

-- `urlUnescape(urlMakeString(…))`, where there is a string.
unfoldable pub unescaped : Option Bytes → Option Bytes
unfolding url_unescape c_string
unescaped none = none
unescaped (some v) = some (c_string (url_unescape v))

-- The call of `addToHashMap` in `urlParseQueryString`, unless the key is empty.
unfoldable pub add_pair : Bytes → Option Bytes → List (Bytes × Option Bytes)
unfolding url_unescape c_string unescaped
add_pair key value =
    if length key == 0 then [] else (c_string (url_unescape key), unescaped value) ∷ []

-- `urlParseQueryString`: `key` and `value` are what has been passed since the last `&`.
unfoldable pub query_from : Bytes → Option Bytes → Bytes → List (Bytes × Option Bytes)
unfolding add_pair
query_from key value [] = add_pair key value
query_from key none (ch ∷ query) =
    let set = query_from key (some []) query in
    let next = query_from [] none query in
    let more = query_from (key ++ ch ∷ []) none query in
    if ch == b'='
    then set
    else if ch == b'&'
    then add_pair key none ++ next
    else if ch == 0
    then []
    else more
query_from key (some value) (ch ∷ query) =
    let next = query_from [] none query in
    let more = query_from key (some (value ++ ch ∷ [])) query in
    if ch == b'&' then add_pair key (some value) ++ next else if ch == 0 then [] else more

unfoldable pub url_parse_query_string : Bytes → List (Bytes × Option Bytes)
unfolding query_from
url_parse_query_string query = query_from [] none query

-- The loop over the key in `urlParseHeaderLine`, for one byte: `*t |= 0x20` for `a` to `z`.
unfoldable pub lower_byte : ℕ → ℕ
lower_byte t = if leb b'a' t && leb t b'z' then (if (t / 32) % 2 == 1 then t else t + 32) else t

unfoldable pub lower_key : Bytes → Bytes
unfolding lower_byte
lower_key [] = []
lower_key (t ∷ k) = lower_byte t ∷ lower_key k

-- `vl >= 2 && value[0] == '"' && value[vl-1] == '"'`
unfoldable pub is_quoted_value : Bytes → Bool
is_quoted_value v = leb 2 (length v) && (get_or v 0 0 == b'"' && get_or v (length v - 1) 0 == b'"')

-- The value that is kept.
unfoldable pub header_value : Option Bytes → Option Bytes
unfolding is_quoted_value c_string
header_value none = none
header_value (some v) = if is_quoted_value v then some (c_string (drop 1 v)) else some (c_string v)

-- The call of `addToHashMap` in `urlParseHeaderLine`.
unfoldable pub add_header : Bytes → Option Bytes → List (Bytes × Option Bytes)
unfolding lower_key header_value c_string
add_header key value =
    if length key == 0 then [] else (lower_key (c_string key), header_value value) ∷ []

-- `urlParseHeaderLine`: inside a field, with what has been passed of its key and its value, and
-- between two fields.
unfoldable pub header_from : Bool → Bytes → Option Bytes → Bytes → List (Bytes × Option Bytes)
unfolding add_header
header_from inside key value [] = if inside then add_header key value else []
header_from inside key value (c ∷ s) =
    let next = header_from false [] none s in
    let set = header_from true key (some []) s in
    let more = header_from true (key ++ c ∷ []) none s in
    let first = header_from true (c ∷ []) none s in
    if inside
    then (if c == b';' then add_header key value ++ next else elim value [
      | none ↦ if c == b'=' then set else more
      | some v ↦ header_from true key (some (v ++ c ∷ [])) s
    ])
    else if c == b' ' || c == b';'
    then next
    else if c == b'='
    then header_from true [] (some []) s
    else first

unfoldable pub url_parse_header_line : Bytes → List (Bytes × Option Bytes)
unfolding header_from
url_parse_header_line s = header_from false [] none s
