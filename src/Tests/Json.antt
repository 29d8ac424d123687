-- ===== src/Tests/Json.antt =====
-- `jsonEscape` at concrete buffers.
use shellinabox.Base.{codes, ◌≡◌, refl, some, ◌∷◌, [], Bytes, length, arith, All}
use shellinabox.Json.{json_escape, count_escaped}
use shellinabox.Json.RoundTrip.{plain, json_unescape, IsPrintable, json_escape_lem}

abbrev prompt : Bytes
prompt = 27 ∷ b'[' ∷ b'm' ∷ b'"' ∷ b'/' ∷ 10 ∷ 0xff ∷ []

json_escape-prompt : json_escape prompt ≡ codes "\\u001B[m\\\"\\/\\n\\u00FF"
unfolding json_escape
json_escape-prompt = refl

json_escape_lem_example :
    (json_unescape plain (json_escape prompt) ≡ some prompt)
    × (length (json_escape prompt) ≡ count_escaped prompt)
    × All IsPrintable (json_escape prompt)
json_escape_lem_example = json_escape_lem prompt (omega arith)
