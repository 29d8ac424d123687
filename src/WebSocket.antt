-- ===== src/WebSocket.antt =====
-- Web socket frames of libhttp/httpconnection.c: what httpSendWebSocketTextMsg and
-- httpSendWebSocketBinaryMsg give to httpTransfer.
pub mod Text
pub mod Binary
pub mod Read
use shellinabox.Base.{
  ℕ, zero, suc, ◌+◌, ◌/◌, ◌%◌, Bool, List, [], ◌∷◌, ◌++◌, leb, ◌==◌, if◌then◌else◌, Bytes,
}

-- `utf8Len` behind the first loop, less what it begins with.
unfoldable pub count_utf8 : Bytes → ℕ
count_utf8 [] = 0
count_utf8 (ch ∷ buf) = (if leb 128 ch then 2 else 1) + count_utf8 buf

-- The second loop.
unfoldable pub utf8_of : Bytes → Bytes
utf8_of [] = []
utf8_of (ch ∷ buf) =
    let rest = utf8_of buf in
    if leb 128 ch then (0xC0 + ch / 64) ∷ (0x80 + ch % 64) ∷ rest else ch ∷ rest

-- `utf8Len`
unfoldable pub utf8_len : Bytes → ℕ
unfolding count_utf8
utf8_len buf = count_utf8 buf + 2

-- `httpSendWebSocketTextMsg`, behind the choice of its input.
unfoldable pub text_frame : ℕ → Bytes → Bytes
unfolding utf8_of
text_frame type buf = type ∷ utf8_of buf ++ 0xFF ∷ []

-- The loop that converts the length: `data[1]`, `data[2]`, … before the last one is cleared.
unfoldable pub base_128 : ℕ → ℕ → Bytes
base_128 zero l = []
base_128 (suc rounds) l =
    let rest = base_128 rounds (l / 128) in (0x80 + l % 128) ∷ (if l / 128 == 0 then [] else rest)

-- `data[i] &= 0x7F`
unfoldable pub clear_last : Bytes → Bytes
clear_last [] = []
clear_last (c ∷ []) = c % 128 ∷ []
clear_last (c ∷ d ∷ ds) = c ∷ clear_last (d ∷ ds)

-- The loop that exchanges the digits.
unfoldable pub reversed : Bytes → Bytes
reversed [] = []
reversed (c ∷ ds) = reversed ds ++ c ∷ []

-- The digits of the length of a frame; a number has fewer of them than itself plus one.
unfoldable pub length_digits : ℕ → Bytes
unfolding base_128 clear_last reversed
length_digits l = reversed (clear_last (base_128 (suc l) l))
