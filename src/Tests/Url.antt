-- ===== src/Tests/Url.antt =====
-- The decoders of URLs at a few texts.
use shellinabox.Base.{
  codes, ◌==ˢ◌, ◌≡◌, refl, none, some, List, [], ◌∷◌, ◌++◌, Bytes, arith, map, All,
}
use shellinabox.Url.{url_unescape, url_parse_query_string, url_parse_header_line, is_quoted_value}
use shellinabox.Url.Search.{url_memstr}
use shellinabox.Url.Unescape.{
  Encodes, escape, itself, plus, empty, decimal, upper, url_unescape-Encodes,
}
use shellinabox.Url.Query.{Field, query_text, decoded, url_parse_query_string-query_text}
use shellinabox.Url.Header.{
  IsField, Value, bare, quoted, line_text, value_read, url_parse_header_line-line_text,
}

url_unescape-text : url_unescape (codes "%2fa+b%zz%4z") ≡ codes "/a b%zz" ++ 4 ∷ codes "z"
unfolding url_unescape
url_unescape-text = refl

encoded : Encodes (codes "/ k") (codes "%2F+k")
encoded =
    escape 2 15 b'2' b'F' (codes " k") (codes "+k") (decimal 2 (omega arith))
      (upper 15 (omega arith) (omega arith))
      (plus (codes "k") (codes "k") (itself b'k' [] [] (omega arith) (omega arith) empty))

url_unescape-Encodes_example : url_unescape (codes "%2F+k") ≡ codes "/ k"
url_unescape-Encodes_example = url_unescape-Encodes (codes "/ k") (codes "%2F+k") encoded

abbrev fields : List Field
fields =
    (codes "w", some (codes "8%30")) ∷ (codes "on", none) ∷ (codes "q", some (codes "a=b")) ∷ []

query_text-fields : query_text fields ≡ codes "w=8%30&on&q=a=b"
unfolding query_text
query_text-fields = refl

url_parse_query_string-query_text_example :
    url_parse_query_string (query_text fields) ≡ map decoded fields
url_parse_query_string-query_text_example = url_parse_query_string-query_text fields (omega arith)

abbrev line : List (Bytes × Value)
line = (codes "name", quoted (codes "keys")) ∷ (codes "Size", bare (codes "3")) ∷ []

line_text-line : line_text line ≡ codes "name=\"keys\"; Size=3; "
unfolding line_text
line_text-line = refl

line-IsField : All IsField line
unfolding is_quoted_value
line-IsField = ground arith

url_parse_header_line-line_text_example :
    url_parse_header_line (line_text line) ≡ map (λ f. (f.0, some (value_read f.1))) line
url_parse_header_line-line_text_example = url_parse_header_line-line_text line line-IsField

-- A line end at the end of the buffer is not found.
url_memstr-end : url_memstr (codes "ab\r\n") (codes "\r\n") ≡ none
unfolding url_memstr
url_memstr-end = refl

url_memstr-inside : url_memstr (codes "ab\r\nc") (codes "\r\n") ≡ some (codes "\r\nc")
unfolding url_memstr ◌==ˢ◌
url_memstr-inside = refl
