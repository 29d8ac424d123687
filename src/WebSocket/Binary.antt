-- ===== src/WebSocket/Binary.antt =====
-- The length of a binary frame.
use shellinabox.Base.{
  ℕ, zero, suc, ◌+◌, ◌*◌, ◌/◌, ◌%◌, ◌<◌, ◌≡◌, refl, [], ◌∷◌, ◌++◌, ◌==◌, Bytes, arith, Bool-cases,
  inl, inr, some, length, All,
}
use shellinabox.WebSocket.Text.{read_frame, read_frame-text_frame, length-text_frame}
use shellinabox.WebSocket.{text_frame, utf8_len, base_128, clear_last, reversed, length_digits}

-- The number that some digits stand for, the most significant first, whatever their high bits.
unfoldable pub value : ℕ → Bytes → ℕ
value acc [] = acc
value acc (c ∷ ds) = value (acc * 128 + c % 128) ds

value-append :
    (acc : ℕ) (ds : Bytes) (c : ℕ) → value acc (ds ++ c ∷ []) ≡ value acc ds * 128 + c % 128
unfolding value
value-append acc [] c = refl
value-append acc (d ∷ ds) c = value-append (acc * 128 + d % 128) ds c

step-value :
    (c n : ℕ) (ds : Bytes)
    → value 0 (reversed (clear_last ds)) ≡ n
    → value 0 (reversed (clear_last (c ∷ ds))) ≡ n * 128 + c % 128
unfolding clear_last reversed
step-value c n [] h = unfold value in omega (arith, h)
step-value c n (d ∷ ds) h = ground (arith, value-append 0 (reversed (clear_last (d ∷ ds))) c, h)

step-nil : (l : ℕ) → l < 128 → value 0 (reversed (clear_last ((0x80 + l % 128) ∷ []))) ≡ l
unfolding clear_last reversed value
step-nil l h = omega arith

value-more :
    (l : ℕ) (ds : Bytes)
    → value 0 (reversed (clear_last ds)) ≡ l / 128
    → value 0 (reversed (clear_last ((0x80 + l % 128) ∷ ds))) ≡ l
value-more l ds h = omega (arith, step-value (0x80 + l % 128) (l / 128) ds h)

base_128-value :
    (rounds l : ℕ) → l < rounds → value 0 (reversed (clear_last (base_128 rounds l))) ≡ l
unfolding base_128
base_128-value zero l h = absurd (omega arith)
base_128-value (suc rounds) l h = elim (Bool-cases (l / 128 == 0)) [
  | inl e ↦ rw e (step-nil l (ground arith))
  | inr e ↦
      rw e
        (value-more l (base_128 rounds (l / 128)) (base_128-value rounds (l / 128) (ground arith)))
]

-- The low seven bits of the digits that httpSendWebSocketBinaryMsg writes for a length stand
-- for this length, the most significant digit first.
pub value-length_digits : (l : ℕ) → value 0 (length_digits l) ≡ l
unfolding length_digits
value-length_digits l = base_128-value (suc l) l (omega arith)

-- From the frame that httpSendWebSocketTextMsg makes of any bytes, a reader of UTF-8 up to the
-- byte 0xFF gets a character for each byte, with the code of the byte, and the first loop
-- counts exactly the bytes that the frame has, so that the buffer is filled by the type, the
-- text and 0xFF; and the low seven bits of the digits that httpSendWebSocketBinaryMsg writes
-- for a length stand for this length, the most significant digit first.
pub text_frame_lem :
    (type : ℕ) (buf : Bytes) (n : ℕ)
    → All (λ b. b < 256) buf
    → (read_frame (text_frame type buf) ≡ some buf)
      × (length (text_frame type buf) ≡ utf8_len buf)
      × (value 0 (length_digits n) ≡ n)
text_frame_lem type buf n h =
    (read_frame-text_frame type buf h, length-text_frame type buf, value-length_digits n)
