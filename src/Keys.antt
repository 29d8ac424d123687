-- ===== src/Keys.antt =====
-- The key codes in `dataHandler` of shellinabox/shellinaboxd.c: two hexadecimal digits for each
-- byte that the browser sends to the terminal.
pub mod RoundTrip
use shellinabox.Base.{
  ℕ, ◌+◌, ◌*◌, ◌%◌, Bool, true, false, not, ◌&&◌, ◌||◌, List, [], ◌∷◌, ltb, if◌then◌else◌, Bytes,
}

-- The test that ends the loop.
unfoldable pub is_no_digit : ℕ → Bool
is_no_digit c = ltb c b'0' || (ltb b'9' c && ltb c b'A') || (ltb b'F' c && ltb c b'a') || ltb b'f' c

-- `(c & 0xF) + 9*(c > '9')`
unfoldable pub digit_value : ℕ → ℕ
digit_value c = c % 16 + 9 * (if ltb b'9' c then 1 else 0)

-- The loop: the bytes of `keyCodes`, which are `char`s. The NUL behind `keys` is no digit.
unfoldable pub key_codes : Bytes → Bytes
unfolding is_no_digit digit_value
key_codes [] = []
key_codes (c0 ∷ []) = []
key_codes (c0 ∷ c1 ∷ keys) =
    let rest = key_codes keys in
    if is_no_digit c0
    then []
    else if is_no_digit c1
    then []
    else (16 * digit_value c0 + digit_value c1) % 256 ∷ rest
