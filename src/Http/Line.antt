-- ===== src/Http/Line.antt =====
-- The lines of a request: `httpParseCommand`, and the header lines of `httpParseHeaders`. A line is
-- given by its bytes, without the newline behind it.
use shellinabox.Base.{
  ℕ, ◌+◌, ◌-◌, Bool, ◌&&◌, ◌||◌, Option, none, some, [], ◌∷◌, Bytes, leb, ◌==◌, ◌==ˢ◌,
  if◌then◌else◌, codes, get_or, take, drop, length,
}
use shellinabox.Url.{c_string}

-- The places that the loop over a line finds.
pub record Marks : Type 0 where
  pub colon : Option ℕ
  pub first_space : Option ℕ
  pub last_space : Option ℕ

unfoldable pub is_space : ℕ → Bool
is_space ch = ch == b' ' || ch == 9

unfoldable pub or_first : Option ℕ → ℕ → Option ℕ
or_first none i = some i
or_first (some j) i = some j

-- One round of the loop, at the place `i`.
unfoldable pub mark : ℕ → ℕ → Marks → Marks
unfolding is_space or_first
mark ch i m =
    if ch == b':'
    then record m { colon = or_first m.colon i }
    else if is_space ch
    then elim m.first_space [
      | none ↦ record m { first_space = some i }
      | some j ↦ record m { last_space = some i }
    ]
    else m

-- The loop over a line, from the place `i` on.
unfoldable pub marks_from : ℕ → Bytes → Marks → Marks
unfolding mark
marks_from i [] m = m
marks_from i (ch ∷ line) m = marks_from (i + 1) line (mark ch i m)

unfoldable pub marks : Bytes → Marks
unfolding marks_from
marks line = marks_from 0 line (record { colon = none; first_space = none; last_space = none })

-- `ch &= ~0x20` for a lower-case letter, and `ch |= 0x20` for an upper-case one.
unfoldable pub to_upper : ℕ → ℕ
to_upper ch = if leb b'a' ch && leb ch b'z' then ch - 32 else ch

unfoldable pub to_lower : ℕ → ℕ
to_lower ch = if leb b'A' ch && leb ch b'Z' then ch + 32 else ch

unfoldable pub upper : Bytes → Bytes
unfolding to_upper
upper [] = []
upper (c ∷ s) = to_upper c ∷ upper s

unfoldable pub lower : Bytes → Bytes
unfolding to_lower
lower [] = []
lower (c ∷ s) = to_lower c ∷ lower s

-- Spaces and tabs are passed over as long as nothing has been kept.
unfoldable pub trim : Bytes → Bytes
unfolding is_space
trim [] = []
trim (c ∷ s) = if is_space c then trim s else c ∷ s

unfoldable pub until_cr : Bytes → Bytes
until_cr [] = []
until_cr (c ∷ s) = let rest = until_cr s in if c == 13 then [] else c ∷ rest

-- A carriage return at the very end is dropped.
unfoldable pub drop_cr : Bytes → Bytes
drop_cr [] = []
drop_cr (c ∷ []) = if c == 13 then [] else c ∷ []
drop_cr (c ∷ d ∷ s) = c ∷ drop_cr (d ∷ s)

pub record RequestLine : Type 0 where
  pub method : Bytes
  pub path : Bytes
  pub version : Bytes

-- `memcmp(http->version, "HTTP/", 5)` is 0 and a digit from 1 on follows.
unfoldable pub is_version : Bytes → Bool
is_version v = (take 5 v ==ˢ codes "HTTP/") && (leb b'1' (get_or v 5 0) && leb (get_or v 5 0) b'9')

-- `httpParseCommand` with the places of the first and the last space.
unfoldable pub parse_between : ℕ → ℕ → Bytes → Option RequestLine
parse_between first last line =
    let method = c_string (upper (take first line)) in
    let path = c_string (trim (take (last - first) (drop first line))) in
    let version = c_string (trim (upper (until_cr (drop last line)))) in
    let rooted = get_or path 0 0 == b'/' || (method ==ˢ codes "OPTIONS" && path ==ˢ codes "*") in
    if first == 0
    then none
    else if rooted && is_version version
    then some (record { method = method; path = path; version = version })
    else none

-- The same where there may be no such places.
unfoldable pub parse_marked : Option ℕ → Option ℕ → Bytes → Option RequestLine
unfolding parse_between
parse_marked (some first) (some last) line = parse_between first last line
parse_marked _ _ line = none

-- `httpParseCommand`; `none` is the label `bad_request`.
unfoldable pub parse_command : Bytes → Option RequestLine
unfolding parse_marked
parse_command line = parse_marked (marks line).first_space (marks line).last_space line

-- The value of a header behind its colon.
unfoldable pub header_text : Bytes → Bytes
header_text s = c_string (drop_cr (trim s))

-- A header with the place of its colon.
unfoldable pub field_at : Option ℕ → Bytes → Option (Bytes × Bytes)
field_at none line = none
field_at (some colon) line =
    if colon == 0
    then none
    else some (c_string (lower (take colon line)), header_text (drop (colon + 1) line))

-- A header line with a name in front of its colon.
unfoldable pub parse_field : Bytes → Option (Bytes × Bytes)
unfolding field_at
parse_field line = field_at (marks line).colon line

-- What a continuation line adds behind a space: all but spaces and tabs.
unfoldable pub folded : Bytes → Bytes
unfolding is_space
folded [] = []
folded (c ∷ s) =
    let rest = folded s in
    if is_space c then rest else if c == 13 && length s == 0 then [] else c ∷ rest
