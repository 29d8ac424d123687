-- ===== src/WebSocket/Text.antt =====
-- Text frames.
use shellinabox.Base.{
  ℕ, ◌+◌, ◌-◌, ◌*◌, ◌/◌, ◌%◌, ◌<◌, ◌≤◌, Bool-cases, inl, inr, ap, true, false, ◌≡◌, refl, [], ◌∷◌,
  ◌++◌, leb, if◌then◌else◌, Bytes, length, length-append, arith, All, Option, none, some,
}
use shellinabox.WebSocket.{count_utf8, utf8_of, utf8_len, text_frame}

-- A reader of UTF-8 up to the byte 0xFF, for characters below 256.
unfoldable pub read_utf8 : Bytes → Option Bytes
read_utf8 [] = none
read_utf8 (c ∷ []) = if leb 0xFF c then some [] else none
read_utf8 (c ∷ d ∷ s) =
    let one = read_utf8 (d ∷ s) in
    let two = read_utf8 s in
    if leb 0xFF c
    then some []
    else if leb 128 c
    then elim two [ none ↦ none | some bs ↦ some (((c - 0xC0) * 64 + (d - 0x80)) ∷ bs) ]
    else elim one [ none ↦ none | some bs ↦ some (c ∷ bs) ]

read_utf8-ascii :
    (c : ℕ) (s bs : Bytes) → c < 128 → read_utf8 s ≡ some bs → read_utf8 (c ∷ s) ≡ some (c ∷ bs)
unfolding read_utf8
read_utf8-ascii c [] bs h e = absurd (ground (arith, e))
read_utf8-ascii c (d ∷ s) bs h e = ground (arith, e)

is_no_end : (c : ℕ) → c < 256 → leb 0xFF (0xC0 + c / 64) ≡ false
is_no_end c h = ground arith

is_lead : (c : ℕ) → leb 128 (0xC0 + c / 64) ≡ true
is_lead c = ground arith

read_utf8-pair :
    (c : ℕ) (s bs : Bytes)
    → c < 256
    → 128 ≤ c
    → read_utf8 s ≡ some bs
    → read_utf8 ((0xC0 + c / 64) ∷ (0x80 + c % 64) ∷ s) ≡ some (c ∷ bs)
unfolding read_utf8
read_utf8-pair c s bs h k e =
    rw (is_no_end c h, is_lead c, e) (ap (λ b. some (b ∷ bs)) (omega (arith, h)))

read_utf8-utf8_of :
    (buf : Bytes) → All (λ b. b < 256) buf → read_utf8 (utf8_of buf ++ 0xFF ∷ []) ≡ some buf
unfolding read_utf8 utf8_of
read_utf8-utf8_of [] h = refl
read_utf8-utf8_of (c ∷ buf) h = elim (Bool-cases (leb 128 c)) [
  | inl e ↦ rw e (
      read_utf8-pair c (utf8_of buf ++ 0xFF ∷ []) buf h.0 (ground arith)
        (read_utf8-utf8_of buf h.1))
  | inr e ↦
      rw e (
        read_utf8-ascii c (utf8_of buf ++ 0xFF ∷ []) buf (ground arith) (read_utf8-utf8_of buf h.1))
]

-- The frame behind its type.
unfoldable pub read_frame : Bytes → Option Bytes
unfolding read_utf8
read_frame [] = none
read_frame (t ∷ s) = read_utf8 s

-- From the frame that httpSendWebSocketTextMsg makes of any bytes, a reader of UTF-8 up to the
-- byte 0xFF gets a character for each byte, with the code of the byte.
pub read_frame-text_frame :
    (type : ℕ) (buf : Bytes) → All (λ b. b < 256) buf → read_frame (text_frame type buf) ≡ some buf
unfolding read_frame text_frame
read_frame-text_frame type buf h = read_utf8-utf8_of buf h

length-utf8_of : (buf : Bytes) → length (utf8_of buf) ≡ count_utf8 buf
unfolding utf8_of count_utf8
length-utf8_of [] = refl
length-utf8_of (c ∷ buf) = ground (arith, length-utf8_of buf)

-- The first loop of httpSendWebSocketTextMsg counts exactly the bytes that the frame has, so
-- that the buffer is filled by the type, the text and 0xFF.
pub length-text_frame : (type : ℕ) (buf : Bytes) → length (text_frame type buf) ≡ utf8_len buf
unfolding text_frame utf8_len
length-text_frame type buf =
    omega (arith, length-append (utf8_of buf) (0xFF ∷ []), length-utf8_of buf)
