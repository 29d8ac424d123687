-- ===== src/Tests/Keys.antt =====
-- Key codes of a few keys.
use shellinabox.Base.{codes, ◌/◌, ◌≤◌, ◌++◌, ◌≡◌, refl, true, [], ◌∷◌, arith, length}
use shellinabox.Keys.{key_codes, is_no_digit}
use shellinabox.Keys.RoundTrip.{hex_text, Stops, key_codes_lem}

hex_text-ls : hex_text true (codes "ls" ++ 13 ∷ []) ≡ codes "6c730d"
unfolding hex_text
hex_text-ls = refl

space-Stops : Stops (codes " ")
unfolding is_no_digit
space-Stops = refl

key_codes_lem_example :
    (key_codes (hex_text true (codes "ls" ++ 13 ∷ []) ++ codes " ") ≡ codes "ls" ++ 13 ∷ [])
    × (length (key_codes (codes "6c7")) ≤ length (codes "6c7") / 2)
key_codes_lem_example =
    key_codes_lem true (codes "ls" ++ 13 ∷ []) (codes " ") (codes "6c7") (omega arith) space-Stops
