-- ===== src/Url/Query.antt =====
-- `urlParseQueryString` on a query that is put together from keys and values.
use shellinabox.Base.{
  ℕ, ◌<◌, ◌≡◌, ◌≢◌, refl, Option, none, some, List, [], ◌∷◌, ◌++◌, map, All, Bytes, length, arith,
}
use mathlib.Core.List.{append_assoc, append-nil}
use shellinabox.Url.{
  url_unescape, c_string, unescaped, add_pair, query_from, url_parse_query_string,
}

-- A key and a value, as they stand in a query.
abbrev pub Field : Type 0
Field = Bytes × Option Bytes

-- A field as it stands in a query.
unfoldable pub field_text : Field → Bytes
field_text (k, none) = k
field_text (k, some v) = k ++ b'=' ∷ v

unfoldable pub query_text : List Field → Bytes
unfolding field_text
query_text [] = []
query_text (f ∷ []) = field_text f
query_text (f ∷ g ∷ fs) = field_text f ++ b'&' ∷ query_text (g ∷ fs)

abbrev pub IsValueByte : ℕ → Type 0
IsValueByte c = (c ≢ b'&') × (c ≢ 0)

abbrev pub IsKeyByte : ℕ → Type 0
IsKeyByte c = (c ≢ b'=') × IsValueByte c

abbrev IsValue : Option Bytes → Type 0
IsValue none = Unit
IsValue (some v) = All IsValueByte v

-- A key that is not empty has no `=`, `&` or NUL, and a value no `&` or NUL.
abbrev pub IsField : Field → Type 0
IsField (k, v) = (0 < length k) × All IsKeyByte k × IsValue v

unfoldable pub decoded : Field → Field
unfolding c_string url_unescape unescaped
decoded (k, v) = (c_string (url_unescape k), unescaped v)

query_from-key :
    (key k rest : Bytes)
    → All IsKeyByte k
    → query_from key none (k ++ rest) ≡ query_from (key ++ k) none rest
unfolding query_from
query_from-key key [] rest h = rw (append-nil key) refl
query_from-key key (c ∷ k) rest h =
    ground (arith, h.0, query_from-key (key ++ c ∷ []) k rest h.1, append_assoc key (c ∷ []) k)

query_from-value :
    (key value v rest : Bytes)
    → All IsValueByte v
    → query_from key (some value) (v ++ rest) ≡ query_from key (some (value ++ v)) rest
unfolding query_from
query_from-value key value [] rest h = rw (append-nil value) refl
query_from-value key value (c ∷ v) rest h =
    ground
      (arith, h.0, query_from-value key (value ++ c ∷ []) v rest h.1, append_assoc value (c ∷ []) v)

-- The parser behind one field.
query_from-field :
    (f : Field) (rest : Bytes)
    → IsField f
    → query_from [] none (field_text f ++ rest) ≡ query_from f.0 f.1 rest
unfolding query_from field_text
query_from-field (k, none) rest h = query_from-key [] k rest h.1
query_from-field (k, some v) rest h = cc (
  append_assoc k (b'=' ∷ v) rest,
  query_from-key [] k (b'=' ∷ v ++ rest) h.1,
  query_from-value k [] v rest h.2,
)

query_from-ampersand :
    (k : Bytes) (v : Option Bytes) (rest : Bytes)
    → 0 < length k
    → query_from k v (b'&' ∷ rest) ≡ decoded (k, v) ∷ query_from [] none rest
unfolding query_from decoded add_pair
query_from-ampersand k none rest h = ground arith
query_from-ampersand k (some v) rest h = ground arith

query_from-end :
    (k : Bytes) (v : Option Bytes) → 0 < length k → query_from k v [] ≡ decoded (k, v) ∷ []
unfolding query_from decoded add_pair
query_from-end k none h = ground arith
query_from-end k (some v) h = ground arith

-- On a query that is put together from fields, with = between key and value and & between
-- fields, urlParseQueryString adds exactly these fields in their order, each part decoded by
-- urlUnescape and read as a C string, if no key is empty, no key has =, & or NUL and no value &
-- or NUL.
pub url_parse_query_string-query_text :
    (fs : List Field) → All IsField fs → url_parse_query_string (query_text fs) ≡ map decoded fs
unfolding url_parse_query_string query_text
url_parse_query_string-query_text [] h = unfold query_from add_pair in refl
url_parse_query_string-query_text (f ∷ []) h =
    cc (append-nil (field_text f), query_from-field f [] h.0, query_from-end f.0 f.1 h.0.0)
url_parse_query_string-query_text (f ∷ g ∷ fs) h = cc (
  query_from-field f (b'&' ∷ query_text (g ∷ fs)) h.0,
  query_from-ampersand f.0 f.1 (query_text (g ∷ fs)) h.0.0,
  url_parse_query_string-query_text (g ∷ fs) h.1,
)
